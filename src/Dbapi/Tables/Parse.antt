-- ===== src/Dbapi/Tables/Parse.antt =====
-- flightsql/dbapi.py, Connection._parse_table_schema_rows.
use flightsql_dbapi.Prelude.{
  Bool, true, false, not, ◌&&◌, Option, none, some, List, [], ◌∷◌, String, ◌==◌, any, contains,
  string_eq, option_eq, if◌then◌else◌,
}
use flightsql_dbapi.Prelude.Dict.{Dict, insert, erase}
use flightsql_dbapi.Errors.{
  os_error, type_error, value_error, arrow_invalid, arrow_type_error, Foreign, pep, foreign, Result,
  ok, raised,
}
use flightsql_dbapi.Dbapi.Response.{Value, null, text, binary, other}
use flightsql_dbapi.Dbapi.Tables.{Row, Decoder}

-- `requested_schema is None and len(reported_schemas) > 1`: with no schema requested, the name is
-- reported in two different schemas.
unfoldable pub is_ambiguous : Option String → List Row → String → Bool
unfolding string_eq option_eq
is_ambiguous (some requested) rows name = false
is_ambiguous none rows name =
    any
      (λ (row : Row).
        row.name == name
        && any (λ (more : Row). more.name == name && not (more.row_schema == row.row_schema)) rows)
      rows

unfoldable pub ambiguous_names : Option String → List Row → List Row → List String
unfolding is_ambiguous
ambiguous_names requested all_rows [] = []
ambiguous_names requested all_rows (row ∷ rows) =
    let rest = ambiguous_names requested all_rows rows in
    if is_ambiguous requested all_rows row.name then row.name ∷ rest else rest

-- `except (OSError, TypeError, ValueError, pa.ArrowInvalid, pa.ArrowTypeError)`
unfoldable pub is_decoding_error : Foreign → Bool
is_decoding_error e =
    any e.is_instance (os_error ∷ type_error ∷ value_error ∷ arrow_invalid ∷ arrow_type_error ∷ [])

module _ {Schema C : Type 0} (decoder : Decoder Schema C) where
  abbrev pub specified : Result (List C) → Result (Option (List C))
  specified (ok columns) = ok (some columns)
  specified (raised e) = raised e

  -- The columns of a stream, none for one that cannot be decoded.
  unfoldable pub decoded : Result Schema → Result (Option (List C))
  unfolding is_decoding_error
  decoded (ok schema) = specified (decoder.column_specs schema)
  decoded (raised (pep c m k)) = raised (pep c m k)
  decoded (raised (foreign e)) = if is_decoding_error e then ok none else raised (foreign e)

  unfoldable pub columns_of : Bool → Value → Result (Option (List C))
  unfolding decoded
  columns_of false value = ok none
  columns_of true null = ok none
  columns_of true (text t) = ok none
  columns_of true other = ok none
  columns_of true (binary bytes) = decoded (decoder.open_stream bytes)

  -- `parsed_by_name` and `invalid_names`.
  abbrev pub Parsed : Type 0
  Parsed = Dict String (List C) × List String

  abbrev pub stored : String → Result (Option (List C)) → Parsed → Result Parsed
  stored name (ok none) (parsed, invalid) = ok (erase name parsed, name ∷ invalid)
  stored name (ok (some columns)) (parsed, invalid) = ok (insert name columns parsed, invalid)
  stored name (raised e) (parsed, invalid) = raised e

  unfoldable pub parse_row : Row → Parsed → Result Parsed
  unfolding columns_of erase insert string_eq
  parse_row row (parsed, invalid) =
      if contains invalid row.name
      then ok (erase row.name parsed, row.name ∷ invalid)
      else stored row.name (columns_of row.has_table_schema row.serialized_schema) (parsed, invalid)

  abbrev pub and_then : Result Parsed → (Parsed → Result Parsed) → Result Parsed
  and_then (ok state) f = f state
  and_then (raised e) f = raised e

  unfoldable pub parse_rows : List Row → Parsed → Result Parsed
  unfolding parse_row
  parse_rows [] state = ok state
  parse_rows (row ∷ rows) state = and_then (parse_row row state) (parse_rows rows)

  -- `{... for name, columns in ... if name not in invalid_names}`
  unfoldable pub without : List String → Dict String (List C) → Dict String (List C)
  unfolding string_eq
  without invalid [] = []
  without invalid ((name, columns) ∷ rest) =
      let kept = without invalid rest in
      if contains invalid name then kept else (name, columns) ∷ kept

  abbrev pub valid_only : Result Parsed → Result (Dict String (List C))
  valid_only (ok (parsed, invalid)) = ok (without invalid parsed)
  valid_only (raised e) = raised e

  unfoldable pub parse_table_schema_rows : List Row → Option String → Result (Dict String (List C))
  unfolding parse_rows without ambiguous_names
  parse_table_schema_rows rows requested =
      valid_only (parse_rows rows ([], ambiguous_names requested rows rows))
