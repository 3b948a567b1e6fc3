-- ===== src/Dbapi/Params/Build.antt =====
-- flightsql/dbapi.py, build_parameter_record and ParameterRecordBuilder: the records.
use flightsql_dbapi.Prelude.{
  ℕ, zero, suc, ◌-◌, Bool, true, false, not, ◌&&◌, Option, none, some, List, [], ◌∷◌, ◌++◌, ◌<>◌,
  map, ◌==◌, eqb, if◌then◌else◌, length, any,
}
use flightsql_dbapi.Prelude.Dict.{Dict}
use flightsql_dbapi.Prelude.Text.{codes}
use flightsql_dbapi.Errors.{
  Exn, pep, error, data_error, Foreign, foreign, Result, ok, raised, ◌>>=◌,
}
use flightsql_dbapi.Dbapi.Params.{
  ℤ, pos, negsuc, PyType, type_eq, Value, Field, Schema, Arrow, type_of, union_positions,
  numbered_names, exceeds_int64, integer_of, or_decimal, is_binding_error, at, placeholder_index,
  same_set,
}

abbrev pub one_based : {X : Type 0} → ℕ → List (Value X) → Result (Value X)
one_based zero values = at (length values - 1) values
one_based (suc i) values = at i values

-- `values[int(field.name[1:]) - 1 if numbered else position]`
unfoldable pub value_for : {X : Type 0} → Bool → ℕ → List ℕ → List (Value X) → Result (Value X)
unfolding placeholder_index at
value_for true position name values = placeholder_index name >>= λ i. one_based i values
value_for false position name values = at position values

-- The placeholders are exactly $1, ..., $n.
unfoldable pub is_numbered : {X T M : Type 0} → Schema T M → List (Value X) → Bool
unfolding same_set numbered_names
is_numbered schema values =
    same_set (map (λ f. f.name) schema.fields) (numbered_names (codes "$") 1 (length values))

module _ {T M : Type 0} where
  abbrev with_nullable : Field T M → Field T M
  with_nullable f = record f { nullable = true }

  abbrev pub nullable_schema : Schema T M → Schema T M
  nullable_schema schema = record schema { fields = map with_nullable schema.fields }

module _ {X T M A B : Type 0} (arrow : Arrow X T M A B) where
  abbrev binding_error : Value X → Exn → Exn
  binding_error value e =
      pep data_error ("cannot bind " <> (arrow.type_name value <> " value to parameter")) (cause e)
    where
      cause : Exn → Option Foreign
      cause (foreign f) = some f
      cause (pep c m k) = k

  -- `except (...) as error: raise DataError(...) from error`
  unfoldable pub or_data_error : Value X → Result A → Result A
  unfolding is_binding_error
  or_data_error value (ok a) = ok a
  or_data_error value (raised e) =
      if is_binding_error e then raised (binding_error value e) else raised e

  unfoldable pub source_value : Value X → T → Value X
  unfolding integer_of
  source_value value t = if arrow.is_decimal t then or_decimal value (integer_of value) else value

  unfoldable pub source_type : Value X → Option T
  unfolding exceeds_int64
  source_type value = if exceeds_int64 value then some arrow.uint64 else none

  unfoldable pub converted : Value X → T → Result A
  unfolding source_type
  converted source t =
      if arrow.is_view t
      then arrow.array (source ∷ []) (some t)
      else arrow.array (source ∷ []) (source_type source) >>= λ a. arrow.cast a t

  -- The array of one field.
  unfoldable pub bind_value : Value X → T → Result A
  unfolding or_data_error source_value converted
  bind_value value t = or_data_error value (converted (source_value value t) t)

  -- The loop over the fields, from a position.
  unfoldable pub bind_fields : Bool → List (Value X) → ℕ → List (Field T M) → Result (List A)
  unfolding value_for bind_value
  bind_fields numbered values position [] = ok []
  bind_fields numbered values position (f ∷ fields) =
      value_for numbered position f.name values >>= λ value. bind_value value f.field_type >>= λ a.
      bind_fields numbered values (suc position) fields >>= λ arrays. ok (a ∷ arrays)

  unfoldable pub build_declared : List (Value X) → Schema T M → Result B
  unfolding bind_fields is_numbered
  build_declared values schema =
      bind_fields (is_numbered schema values) values 0 schema.fields >>= λ arrays.
      arrow.from_arrays arrays (nullable_schema schema)

  -- The children and the type id of the union, through the positions.
  unfoldable pub union_children :
      PyType → Value X → Dict PyType ℕ → ℤ → List A → Result (ℤ × List A)
  unfolding type_eq
  union_children t value [] type_id children = ok (type_id, children)
  union_children t value ((u, position) ∷ rest) type_id children =
      if u == t
      then (arrow.array (value ∷ []) (some (arrow.arrow_type u)) >>= λ child.
          union_children t value rest (pos position) (children ++ (child ∷ [])))
      else (arrow.array [] (some (arrow.arrow_type u)) >>= λ child.
          union_children t value rest type_id (children ++ (child ∷ [])))

  abbrev pub union_or_error : Value X → Option PyType → Result A
  union_or_error value none = raised (
      pep error ("unable to map \"" <> (arrow.type_name value <> "\" type to PyArrow datatype"))
        none)
  union_or_error value (some t) = union_children t value union_positions (negsuc 0) [] >>= λ x.
      arrow.union_from_dense (x.0 ∷ []) (0 ∷ []) x.1

  unfoldable pub union_array_for_value : Value X → Result A
  unfolding union_children type_of
  union_array_for_value value = union_or_error value (type_of value)

  unfoldable pub union_arrays : List (Value X) → Result (List A)
  unfolding union_array_for_value
  union_arrays [] = ok []
  union_arrays (value ∷ values) = union_array_for_value value >>= λ column.
      union_arrays values >>= λ columns. ok (column ∷ columns)

  unfoldable pub build_record : List (Value X) → Result B
  unfolding union_arrays numbered_names
  build_record [] = arrow.from_named [] []
  build_record (value ∷ values) = union_arrays (value ∷ values) >>= λ columns.
      arrow.from_named columns (numbered_names (codes "param_") 0 (length columns))

  -- The conditions for the declared schema.
  unfoldable pub fits : List (Value X) → Schema T M → Bool
  fits values schema =
      eqb (length schema.fields) (length values)
      && (not (eqb (length values) 0) && not (any (λ f. arrow.is_union f.field_type) schema.fields))

  unfoldable pub build_parameter_record : List (Value X) → Option (Schema T M) → Result B
  unfolding build_record build_declared fits
  build_parameter_record values none = build_record values
  build_parameter_record values (some schema) =
      if fits values schema then build_declared values schema else build_record values
