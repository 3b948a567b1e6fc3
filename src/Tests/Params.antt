-- ===== src/Tests/Params.antt =====
-- Bindings with a declared schema, and the record of unions.
use flightsql_dbapi.Prelude.{
  Bool, ◌↔◌, length, ℕ, ◌≡◌, refl, sym, ap, ◌∙◌, true, false, Option, none, some, List, [], ◌∷◌,
  map, eqb, bytes_eq,
}
use flightsql_dbapi.Prelude.Text.{codes}
use flightsql_dbapi.Errors.{foreign, python_error, ok_injective, Result, ok, raised}
use flightsql_dbapi.Dbapi.Params.{
  ℤ, pos, PyType, Value, int_value, str_value, Schema, Arrow, type_of,
}
use flightsql_dbapi.Dbapi.Params.Build.{build_parameter_record, fits}
use flightsql_dbapi.Dbapi.Params.Placeholders.{Placeholders}
use flightsql_dbapi.Dbapi.Params.Laws.{Built, build_parameter_record-Built}
use flightsql_dbapi.Dbapi.Params.Legacy.{child, build_record-values}

-- An array is the list of its values.
abbrev Cells : Type 0
Cells = List (Value ℕ)

abbrev child_or_error : Option Cells → Result Cells
child_or_error none = raised (foreign (python_error "ArrowInvalid"))
child_or_error (some a) = ok a

abbrev dense : List ℤ → List ℕ → List Cells → Result Cells
dense (pos k ∷ []) offsets children = child_or_error (child k children)
dense _ offsets children = raised (foreign (python_error "ArrowInvalid"))

abbrev arrow : Arrow ℕ ℕ (Unit {0}) Cells (List Cells)
arrow = record {
  is_union = λ t. eqb t 9;
  is_decimal = λ t. eqb t 8;
  is_view = λ t. eqb t 7;
  uint64 = 6;
  arrow_type = λ t. 0;
  array = λ vs t. ok vs;
  cast = λ a t. ok a;
  union_from_dense = dense;
  from_arrays = λ as_ schema. ok as_;
  from_named = λ as_ names. ok as_;
  type_name = λ v. "int";
}

abbrev head_of : Cells → Option (Value ℕ)
head_of [] = none
head_of (v ∷ vs) = some v

abbrev two_values : List (Value ℕ)
two_values = int_value (pos 5) ∷ str_value "x" ∷ []

abbrev swapped : Schema ℕ (Unit {0})
swapped = record {
  fields =
      record { name = codes "$2"; field_type = 1; nullable = false; metadata = tt }
      ∷ record { name = codes "$1"; field_type = 2; nullable = true; metadata = tt }
      ∷ [];
  metadata = tt;
}

swapped_values :
    build_parameter_record arrow two_values (some swapped)
    ≡ ok ((str_value "x" ∷ []) ∷ (int_value (pos 5) ∷ []) ∷ [])
unfolding build_parameter_record
swapped_values = refl

fits_two : fits arrow two_values swapped ≡ true
unfolding fits
fits_two = refl

build_parameter_record-Built_example :
    (numbered : Bool) × ((numbered ≡ true)
      ↔ Placeholders (map (λ f. f.name) swapped.fields) (length two_values))
    × Built arrow numbered two_values swapped
        (build_parameter_record arrow two_values (some swapped))
build_parameter_record-Built_example =
    build_parameter_record-Built arrow two_values swapped fits_two

two_unions :
    build_parameter_record arrow two_values none
    ≡ ok ((int_value (pos 5) ∷ []) ∷ (str_value "x" ∷ []) ∷ [])
unfolding build_parameter_record
two_unions = refl

head_of_array :
    (t : PyType) (v : Value ℕ) (a : Cells)
    → type_of v ≡ some t
    → arrow.array (v ∷ []) (some (arrow.arrow_type t)) ≡ ok a
    → head_of a ≡ some v
head_of_array t v a typed e = ap head_of (sym (ok_injective (v ∷ []) a e))

head_of_union :
    (k : ℕ) (children : List Cells) (a u : Cells)
    → child k children ≡ some a
    → arrow.union_from_dense (pos k ∷ []) (0 ∷ []) children ≡ ok u
    → head_of u ≡ head_of a
head_of_union k children a u found e =
    ap head_of (sym (ok_injective a u (sym (ap child_or_error found) ∙ e)))

build_record-values_example :
    (columns : List Cells) × (map head_of columns ≡ map some two_values)
    × (ok columns ≡ ok ((int_value (pos 5) ∷ []) ∷ (str_value "x" ∷ []) ∷ []))
build_record-values_example =
    build_record-values arrow head_of head_of_array head_of_union two_values
      ((int_value (pos 5) ∷ []) ∷ (str_value "x" ∷ []) ∷ []) two_unions
