-- ===== src/Dbapi/Types.antt =====
-- flightsql/dbapi.py: the Arrow types of columns, with nanoseconds reduced to microseconds. The
-- types are those of pyarrow, by their type ids.

pub mod Sql
pub mod Unchanged
pub mod Normal
pub mod Coarse
pub mod Agree
use flightsql_dbapi.Prelude.{
  ℕ, Bool, true, false, ◌||◌, Option, none, some, List, String, ◌<>◌, if◌then◌else◌,
}
use flightsql_dbapi.Errors.{not_supported_error, Exn, pep, Result, ok, raised}

pub data TimeUnit : Type 0 where
  second millisecond microsecond nanosecond : TimeUnit

-- The types without children.
pub data Scalar : Type 0 where
  null_type boolean int8 int16 int32 int64 uint8 uint16 uint32 uint64 : Scalar
  float16 float32 float64 utf8 large_utf8 utf8_view : Scalar
  binary large_binary binary_view date32 date64 interval : Scalar
  fixed_size_binary : ℕ → Scalar
  decimal : ℕ → ℕ → Scalar
  time32 time64 duration : TimeUnit → Scalar
  timestamp : TimeUnit → Option String → Scalar

pub data ListKind : Type 0 where
  small large view large_view : ListKind

mutual
  pub data DataType : Type 0 where
    scalar : Scalar → DataType
    list_of : ListKind → Field → DataType
    fixed_size_list : Field → ℕ → DataType
    struct : Fields → DataType
    map_of : Field → Field → Bool → DataType
    dictionary : DataType → DataType → Bool → DataType
    union_of : Fields → Bool → List ℕ → DataType
    extension : String → DataType → DataType
    run_end_encoded : DataType → DataType → DataType

  -- Name, type, nullable and metadata.
  pub data Field : Type 0 where
    field : String → DataType → Bool → Option (List (String × String)) → Field

  pub data Fields : Type 0 where
    nil : Fields
    cons : Field → Fields → Fields

unfoldable pub microsecond_scalar : Scalar → Option Scalar
microsecond_scalar (timestamp nanosecond tz) = some (timestamp microsecond tz)
microsecond_scalar (time64 nanosecond) = some (time64 microsecond)
microsecond_scalar (duration nanosecond) = some (duration microsecond)
microsecond_scalar _ = none

abbrev pub is_some : {A : Type 0} → Option A → Bool
is_some none = false
is_some (some a) = true

unfoldable mutual
  unfolding microsecond_scalar

  -- A map has one child, the struct of its keys and its items.
  pub contains_nanosecond : DataType → Bool
  contains_nanosecond (scalar s) = is_some (microsecond_scalar s)
  contains_nanosecond (list_of kind item) = contains_in_field item
  contains_nanosecond (fixed_size_list item size) = contains_in_field item
  contains_nanosecond (struct fields) = contains_in_fields fields
  contains_nanosecond (map_of key item sorted) = contains_in_field key || contains_in_field item
  contains_nanosecond (dictionary index value ordered) = contains_nanosecond value
  contains_nanosecond (union_of fields dense codes) = contains_in_fields fields
  contains_nanosecond (extension name storage) = contains_nanosecond storage
  contains_nanosecond (run_end_encoded ends values) =
      contains_nanosecond ends || contains_nanosecond values

  pub contains_in_field : Field → Bool
  contains_in_field (field name type nullable metadata) = contains_nanosecond type

  pub contains_in_fields : Fields → Bool
  contains_in_fields nil = false
  contains_in_fields (cons f fs) = contains_in_field f || contains_in_fields fs

abbrev pub and_ok : {A B : Type 0} → Result A → (A → Result B) → Result B
and_ok (ok a) f = f a
and_ok (raised e) f = raised e

abbrev pub or_same : Option Scalar → Scalar → DataType
or_same none s = scalar s
or_same (some t) s = scalar t

-- `shown` is how pyarrow prints a type.
module _ (shown : DataType → String) where
  abbrev pub unsupported : DataType → String → Exn
  unsupported type path =
      pep not_supported_error
        ("cannot safely normalize nanosecond temporal values inside unsupported Arrow type "
          <> (shown type <> (" at " <> path)))
        none

  unfoldable pub unless_nanosecond : DataType → String → Result DataType
  unfolding contains_nanosecond
  unless_nanosecond type path =
      if contains_nanosecond type then raised (unsupported type path) else ok type

  unfoldable mutual
    unfolding unless_nanosecond microsecond_scalar

    pub normalized_type : DataType → String → Result DataType
    normalized_type (scalar s) path = ok (or_same (microsecond_scalar s) s)
    normalized_type (list_of small item) path =
        and_ok (normalized_field item (path <> "[]")) (λ f. ok (list_of small f))
    normalized_type (list_of large item) path =
        and_ok (normalized_field item (path <> "[]")) (λ f. ok (list_of large f))
    normalized_type (list_of view item) path = unless_nanosecond (list_of view item) path
    normalized_type (list_of large_view item) path =
        unless_nanosecond (list_of large_view item) path
    normalized_type (fixed_size_list item size) path =
        and_ok (normalized_field item (path <> "[]")) (λ f. ok (fixed_size_list f size))
    normalized_type (struct fields) path =
        and_ok (normalized_fields fields path) (λ fs. ok (struct fs))
    normalized_type (map_of key item sorted) path =
        and_ok (normalized_field key (path <> ".key"))
          (λ k. and_ok (normalized_field item (path <> ".value")) (λ i. ok (map_of k i sorted)))
    normalized_type (dictionary index value ordered) path =
        and_ok (normalized_type value (path <> ".dictionary"))
          (λ v. ok (dictionary index v ordered))
    normalized_type (union_of fields dense codes) path =
        and_ok (normalized_fields fields path) (λ fs. ok (union_of fs dense codes))
    normalized_type (extension name storage) path = unless_nanosecond (extension name storage) path
    normalized_type (run_end_encoded ends values) path =
        unless_nanosecond (run_end_encoded ends values) path

    pub normalized_field : Field → String → Result Field
    normalized_field (field name type nullable metadata) path =
        and_ok (normalized_type type path) (λ t. ok (field name t nullable metadata))

    -- The fields of a struct or a union, each below its own name.
    pub normalized_fields : Fields → String → Result Fields
    normalized_fields nil path = ok nil
    normalized_fields (cons (field name type nullable metadata) fs) path =
        and_ok (normalized_field (field name type nullable metadata) (path <> ("." <> name)))
          (λ f. and_ok (normalized_fields fs path) (λ rest. ok (cons f rest)))
