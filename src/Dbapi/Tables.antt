-- ===== src/Dbapi/Tables.antt =====
-- flightsql/dbapi.py, Connection: table names, types and columns from a GetTables response.
pub mod Parse
pub mod Request
pub mod Named
pub mod Columns
use flightsql_dbapi.Prelude.{
  ℕ, zero, suc, Bool, true, false, not, ◌||◌, ◌&&◌, Option, none, some, List, [], ◌∷◌, ◌++◌, String,
  ◌==◌, any, all, contains, string_eq, option_eq, if◌then◌else◌, length, eqb, map,
}
use flightsql_dbapi.Prelude.Dict.{Dict, insert, erase, set_default}
use flightsql_dbapi.Errors.{
  os_error, type_error, value_error, arrow_invalid, arrow_type_error, Foreign, Exn, pep, foreign,
  Result, ok, raised,
}
use flightsql_dbapi.Effects.{Exec, pure, raise, lift, on_world, ◌>>=◌, ◌>>◌}
use flightsql_dbapi.Client.Service.{FlightInfo, TablesRequest}
use flightsql_dbapi.Dbapi.Response.{
  Value, null, text, binary, other, Table, MetadataClient, malformed, tables_from_info,
}
use flightsql_dbapi.Dbapi.Catalog.{Scope, metadata_catalog, catalog_fallback}

-- `C` is the specification of one column.
pub record TableMetadataResult (C : Type 0) : Type 0 where
  pub table_names : List String
  pub columns_by_name : Option (Dict String (List C))
  pub included_schema_supported : Bool
  pub table_types : Option (Dict String Value)

-- TableMetadataRow: the name, its schema, the serialized Arrow schema, and whether the table has
-- such a column.
pub record Row : Type 0 where
  pub name : String
  pub row_schema : Option String
  pub serialized_schema : Value
  pub has_table_schema : Bool

-- Read from the IPC stream format by pyarrow, and `column_specs` of what was read.
pub record Decoder (Schema C : Type 0) : Type 0 where
  pub open_stream : List ℕ → Result Schema
  pub column_specs : Schema → Result (List C)

unfoldable pub nulls : ℕ → List Value
nulls zero = []
nulls (suc n) = null ∷ nulls n

unfoldable pub column_or_nulls : Table → String → List Value
unfolding nulls string_eq
column_or_nulls t name = if contains t.column_names name then t.values name else nulls t.num_rows

unfoldable pub zip : List Value → List Value → List Value → List (Value × Value × Value)
zip (a ∷ left) (b ∷ middle) (c ∷ right) = (a, b, c) ∷ zip left middle right
zip _ _ _ = []

-- A nonempty string, as every table_name must be.
unfoldable pub table_name : Value → Option String
unfolding string_eq
table_name (text name) = if name == "" then none else some name
table_name null = none
table_name (binary b) = none
table_name other = none

-- A string or null, as every db_schema_name must be.
unfoldable pub schema_name : Value → Option (Option String)
schema_name null = some none
schema_name (text name) = some (some name)
schema_name (binary b) = none
schema_name other = none

-- `requested_schema is not None and row_schema not in (None, requested_schema)`
unfoldable pub is_excluded : Option String → Option String → Bool
unfolding string_eq
is_excluded none row_schema = false
is_excluded (some requested) none = false
is_excluded (some requested) (some row_schema) = not (row_schema == requested)

-- One turn of the loop over the rows of a table: the row, unless it is left out.
unfoldable pub checked_row :
    Option String → Bool → Value → Option String → Option (Option String) → Result (Option Row)
unfolding is_excluded
checked_row requested has serialized none schema =
    raised (malformed "Flight SQL GetTables table_name values must be nonempty strings")
checked_row requested has serialized (some name) none =
    raised (malformed "Flight SQL GetTables db_schema_name values must be strings or null")
checked_row requested has serialized (some name) (some schema) = ok (
    if is_excluded requested schema
    then none
    else (some (record {
      name = name;
      row_schema = schema;
      serialized_schema = serialized;
      has_table_schema = has;
    })))

abbrev pub with_row : Result (Option Row) → Result (List Row) → Result (List Row)
with_row (raised e) rest = raised e
with_row (ok row) (raised e) = raised e
with_row (ok none) (ok rows) = ok rows
with_row (ok (some row)) (ok rows) = ok (row ∷ rows)

unfoldable pub checked_rows :
    Option String → Bool → List (Value × Value × Value) → Result (List Row)
unfolding checked_row table_name schema_name
checked_rows requested has [] = ok []
checked_rows requested has ((name, schema, serialized) ∷ rest) =
    with_row (checked_row requested has serialized (table_name name) (schema_name schema))
      (checked_rows requested has rest)

unfoldable pub rows_of_table : Option String → Table → Result (List Row)
unfolding checked_rows column_or_nulls zip string_eq
rows_of_table requested t =
    if not (contains t.column_names "table_name")
    then (raised (malformed "Flight SQL GetTables payload is missing required table_name column"))
    else (checked_rows requested (contains t.column_names "table_schema") (
        zip (t.values "table_name") (column_or_nulls t "db_schema_name")
          (column_or_nulls t "table_schema")))

abbrev pub joined_rows : Result (List Row) → Result (List Row) → Result (List Row)
joined_rows (raised e) rest = raised e
joined_rows (ok rows) (raised e) = raised e
joined_rows (ok rows) (ok more) = ok (rows ++ more)

unfoldable pub table_metadata_rows : Option String → List Table → Result (List Row)
unfolding rows_of_table
table_metadata_rows requested [] = ok []
table_metadata_rows requested (t ∷ ts) =
    joined_rows (rows_of_table requested t) (table_metadata_rows requested ts)

-- Whether some table has the column of serialized schemas.
unfoldable pub saw_table_schema : List Table → Bool
unfolding string_eq
saw_table_schema tables = any (λ (t : Table). contains t.column_names "table_schema") tables

-- The loop of `_table_types` over one table. Names other than texts were refused before.
unfoldable pub types_of_rows :
    Option String → List (Value × Value × Value) → Dict String Value → Dict String Value
unfolding is_excluded string_eq set_default
types_of_rows requested [] types = types
types_of_rows requested ((text name, text schema, table_type) ∷ rest) types =
    types_of_rows requested rest
      (if is_excluded requested (some schema) then types else set_default name table_type types)
types_of_rows requested ((text name, _, table_type) ∷ rest) types =
    types_of_rows requested rest (set_default name table_type types)
types_of_rows requested (_ ∷ rest) types = types_of_rows requested rest types

unfoldable pub types_of_tables : Option String → List Table → Dict String Value → Dict String Value
unfolding types_of_rows column_or_nulls zip
types_of_tables requested [] types = types
types_of_tables requested (t ∷ ts) types = types_of_tables requested ts (
    types_of_rows requested
      (zip (t.values "table_name") (column_or_nulls t "db_schema_name") (t.values "table_type"))
      types)

unfoldable pub table_types_of : Option String → List Table → Option (Dict String Value)
unfolding types_of_tables string_eq
table_types_of requested tables =
    if all (λ (t : Table). contains t.column_names "table_type") tables
    then some (types_of_tables requested tables [])
    else none
