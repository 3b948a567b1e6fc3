-- ===== src/Dbapi/Params.antt =====
-- flightsql/dbapi.py, build_parameter_record and ParameterRecordBuilder. Arrays, record batches and
-- casts are pyarrow's; a name is the list of its code points.
pub mod Build
pub mod Placeholders
pub mod Laws
pub mod Legacy
use flightsql_dbapi.Prelude.{
  ℕ, zero, suc, ◌+◌, ◌-◌, ◌^◌, Bool, true, false, not, ◌&&◌, ◌||◌, Option, none, some, List, [],
  ◌∷◌, ◌++◌, String, ◌<>◌, map, ◌==◌, contains, bytes_eq, nat_eq, leb, eqb, if◌then◌else◌, length,
  drop, any, all,
}
use flightsql_dbapi.Prelude.Tests.{Eq}
use flightsql_dbapi.Prelude.Dict.{Dict, keys}
use flightsql_dbapi.Prelude.Text.{codes}
use flightsql_dbapi.Prelude.Decimal.{decimal, parse_from}
use flightsql_dbapi.Errors.{
  Exn, pep, foreign, error, data_error, python_error, Foreign, arrow_invalid, arrow_type_error,
  arrow_not_implemented, overflow_error, Result, ok, raised, ◌>>=◌,
}

-- `negsuc n` is -(n + 1).
pub data ℤ : Type 0 where
  pos negsuc : ℕ → ℤ

-- The types that a dense union of the legacy record offers.
pub data PyType : Type 0 where
  int float str bytes bool : PyType

type_dec : Discrete PyType
type_dec = hlevel

instance unfoldable pub type_eq : Eq PyType
unfolding type_dec
type_eq = record { dec = type_dec }

-- A parameter: of one of these types, None, a Decimal of an integer, an instance of a proper
-- subclass of int other than bool, or something else.
pub data Value (X : Type 0) : Type 0 where
  int_value : ℤ → Value X
  bool_value : Bool → Value X
  float_value : X → Value X
  str_value : String → Value X
  bytes_value : List ℕ → Value X
  none_value : Value X
  decimal_value : ℤ → Value X
  int_subclass : ℤ → X → Value X
  other_value : X → Value X

pub record Field (T M : Type 0) : Type 0 where
  pub name : List ℕ
  pub field_type : T
  pub nullable : Bool
  pub metadata : M

pub record Schema (T M : Type 0) : Type 0 where
  pub fields : List (Field T M)
  pub metadata : M

-- pyarrow: the tests on types, the arrays of values and their casts, and record batches; and the
-- name of a value's type.
pub record Arrow (X T M A B : Type 0) : Type 0 where
  pub is_union : T → Bool
  pub is_decimal : T → Bool
  pub is_view : T → Bool
  pub uint64 : T
  pub arrow_type : PyType → T
  pub array : List (Value X) → Option T → Result A
  pub cast : A → T → Result A
  pub union_from_dense : List ℤ → List ℕ → List A → Result A
  pub from_arrays : List A → Schema T M → Result B
  pub from_named : List A → List (List ℕ) → Result B
  pub type_name : Value X → String

unfoldable pub type_of : {X : Type 0} → Value X → Option PyType
type_of (int_value n) = some int
type_of (bool_value b) = some bool
type_of (float_value x) = some float
type_of (str_value s) = some str
type_of (bytes_value s) = some bytes
type_of none_value = none
type_of (decimal_value n) = none
type_of (int_subclass n x) = none
type_of (other_value x) = none

abbrev pub union_positions : Dict PyType ℕ
union_positions = (int, 0) ∷ (float, 1) ∷ (str, 2) ∷ (bytes, 3) ∷ (bool, 4) ∷ []

-- `f"{prefix}{i}"`
abbrev pub numbered_name : List ℕ → ℕ → List ℕ
numbered_name prefix i = prefix ++ decimal i

-- `[f"{prefix}{i}" for i in range(first, first + count)]`
unfoldable pub numbered_names : List ℕ → ℕ → ℕ → List (List ℕ)
unfolding decimal
numbered_names prefix first zero = []
numbered_names prefix first (suc count) =
    numbered_name prefix first ∷ numbered_names prefix (suc first) count

-- `isinstance(value, int) and value >= 2**63`
unfoldable pub exceeds_int64 : {X : Type 0} → Value X → Bool
exceeds_int64 (int_value (pos n)) = leb (2 ^ 63) n
exceeds_int64 (int_subclass (pos n) x) = leb (2 ^ 63) n
exceeds_int64 _ = false

-- The integer of an `int` that is no `bool`.
unfoldable pub integer_of : {X : Type 0} → Value X → Option ℤ
integer_of (int_value n) = some n
integer_of (int_subclass n x) = some n
integer_of _ = none

abbrev or_decimal : {X : Type 0} → Value X → Option ℤ → Value X
or_decimal value none = value
or_decimal value (some n) = decimal_value n

-- The exceptions that the loop turns into a DataError.
unfoldable pub is_binding_error : Exn → Bool
is_binding_error (pep c m k) = false
is_binding_error (foreign e) =
    e.is_instance arrow_invalid
    || (e.is_instance arrow_type_error
        || (e.is_instance arrow_not_implemented || e.is_instance overflow_error))

-- `values[i]`, which is only reached with i in range or too large.
unfoldable pub at : {X : Type 0} → ℕ → List (Value X) → Result (Value X)
at i [] = raised (foreign (python_error "IndexError: list index out of range"))
at zero (value ∷ values) = ok value
at (suc i) (value ∷ values) = at i values

-- `int(name[1:])` for a name of digits after its first character.
abbrev pub parsed_or : Option ℕ → Result ℕ
parsed_or none = raised (foreign (python_error "ValueError: invalid literal for int()"))
parsed_or (some n) = ok n

unfoldable pub placeholder_index : List ℕ → Result ℕ
unfolding parse_from
placeholder_index name = parsed_or (parse_from 0 (drop 1 name))

-- The two sets of names are equal.
unfoldable pub same_set : List (List ℕ) → List (List ℕ) → Bool
unfolding bytes_eq
same_set xs ys = all (contains ys) xs && all (contains xs) ys
