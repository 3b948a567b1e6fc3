-- ===== src/Dbapi/Types/Sql.antt =====
-- flightsql/dbapi.py, resolve_sql_type: the SQLAlchemy type of an Arrow type.
use flightsql_dbapi.Prelude.{
  ℕ, Bool, true, false, ◌&&◌, Option, none, some, List, [], ◌∷◌, String, any, contains,
  if◌then◌else◌,
}
use flightsql_dbapi.Prelude.Tests.{Eq}
use flightsql_dbapi.Dbapi.Types.{
  DataType, scalar, list_of, fixed_size_list, struct, map_of, dictionary, union_of, extension,
  run_end_encoded, Field, field, Scalar, null_type, boolean, int8, int16, int32, int64, uint8,
  uint16, uint32, uint64, float16, float32, float64, utf8, large_utf8, utf8_view, binary,
  large_binary, binary_view, date32, date64, interval, fixed_size_binary, decimal, time32, time64,
  duration, timestamp, ListKind, small, large, view, large_view,
}

-- The functions of `pa.types` that are looked up by name.
pub data Predicate : Type 0 where
  is_time is_date is_boolean is_duration is_interval is_float16 is_float32 is_floating : Predicate
  is_string is_large_string is_string_view is_binary is_large_binary : Predicate
  is_fixed_size_binary is_binary_view is_int8 is_int16 is_uint8 is_int32 is_uint16 : Predicate
  is_int64 is_uint32 is_uint64 is_list is_large_list is_fixed_size_list : Predicate
  is_list_view is_large_list_view is_struct is_map is_union : Predicate

predicate_dec : Discrete Predicate
predicate_dec = hlevel

instance unfoldable pub predicate_eq : Eq Predicate
unfolding predicate_dec
predicate_eq = record { dec = predicate_dec }

-- `double` is DOUBLE_PRECISION, or FLOAT(53) where SQLAlchemy lacks that.
pub data SqlType : Type 0 where
  time_type date_type boolean_type interval_type real double varchar varbinary : SqlType
  smallint integer bigint nested_json no_type : SqlType
  numeric decimal_type : ℕ → ℕ → SqlType
  timestamp_type : Bool → SqlType
  array : SqlType → SqlType

abbrev pub scalar_sql_types : List (List Predicate × SqlType)
scalar_sql_types =
    (is_time ∷ [], time_type)
    ∷ (is_date ∷ [], date_type)
    ∷ (is_boolean ∷ [], boolean_type)
    ∷ (is_duration ∷ is_interval ∷ [], interval_type)
    ∷ (is_float16 ∷ is_float32 ∷ [], real)
    ∷ (is_floating ∷ [], double)
    ∷ (is_string ∷ is_large_string ∷ is_string_view ∷ [], varchar)
    ∷ (is_binary ∷ is_large_binary ∷ is_fixed_size_binary ∷ is_binary_view ∷ [], varbinary)
    ∷ (is_int8 ∷ is_int16 ∷ is_uint8 ∷ [], smallint)
    ∷ (is_int32 ∷ is_uint16 ∷ [], integer)
    ∷ (is_int64 ∷ is_uint32 ∷ [], bigint)
    ∷ (is_uint64 ∷ [], numeric 20 0)
    ∷ []

abbrev pub list_predicates : List Predicate
list_predicates =
    is_list ∷ is_large_list ∷ is_fixed_size_list ∷ is_list_view ∷ is_large_list_view ∷ []

abbrev pub nested_predicates : List Predicate
nested_predicates = is_struct ∷ is_map ∷ is_union ∷ []

-- The predicates that pyarrow answers with true, by the type id.
unfoldable pub scalar_predicates : Scalar → List Predicate
scalar_predicates null_type = []
scalar_predicates boolean = is_boolean ∷ []
scalar_predicates int8 = is_int8 ∷ []
scalar_predicates int16 = is_int16 ∷ []
scalar_predicates int32 = is_int32 ∷ []
scalar_predicates int64 = is_int64 ∷ []
scalar_predicates uint8 = is_uint8 ∷ []
scalar_predicates uint16 = is_uint16 ∷ []
scalar_predicates uint32 = is_uint32 ∷ []
scalar_predicates uint64 = is_uint64 ∷ []
scalar_predicates float16 = is_float16 ∷ is_floating ∷ []
scalar_predicates float32 = is_float32 ∷ is_floating ∷ []
scalar_predicates float64 = is_floating ∷ []
scalar_predicates utf8 = is_string ∷ []
scalar_predicates large_utf8 = is_large_string ∷ []
scalar_predicates utf8_view = is_string_view ∷ []
scalar_predicates binary = is_binary ∷ []
scalar_predicates large_binary = is_large_binary ∷ []
scalar_predicates binary_view = is_binary_view ∷ []
scalar_predicates date32 = is_date ∷ []
scalar_predicates date64 = is_date ∷ []
scalar_predicates interval = is_interval ∷ []
scalar_predicates (fixed_size_binary n) = is_fixed_size_binary ∷ []
scalar_predicates (decimal p s) = []
scalar_predicates (time32 u) = is_time ∷ []
scalar_predicates (time64 u) = is_time ∷ []
scalar_predicates (duration u) = is_duration ∷ []
scalar_predicates (timestamp u tz) = []

unfoldable pub list_kind_predicate : ListKind → Predicate
list_kind_predicate small = is_list
list_kind_predicate large = is_large_list
list_kind_predicate view = is_list_view
list_kind_predicate large_view = is_large_list_view

abbrev has_time_zone : Option String → Bool
has_time_zone none = false
has_time_zone (some tz) = true

-- `known` tells which functions this pyarrow has: the view predicates are newer than its floor.
module _ (known : Predicate → Bool) where
  -- `_is_type(t, predicate)`, where `held` are the predicates that hold of `t`.
  unfoldable pub is_type : List Predicate → Predicate → Bool
  unfolding predicate_eq
  is_type held predicate = known predicate && contains held predicate

  -- The loop over `_SCALAR_SQL_TYPES`, and what follows it for a type without children.
  unfoldable pub first_type : List (List Predicate × SqlType) → List Predicate → SqlType
  unfolding is_type
  first_type [] held = no_type
  first_type ((predicates, sql_type) ∷ rest) held =
      let other = first_type rest held in if any (is_type held) predicates then sql_type else other

  unfoldable pub resolve_scalar : Scalar → SqlType
  unfolding first_type scalar_predicates
  resolve_scalar (timestamp u tz) = timestamp_type (has_time_zone tz)
  resolve_scalar (decimal precision scale) = decimal_type precision scale
  resolve_scalar s = first_type scalar_sql_types (scalar_predicates s)

  unfoldable pub list_of_item : SqlType → SqlType
  list_of_item no_type = nested_json
  list_of_item (array item) = nested_json
  list_of_item item = array item

  unfoldable pub resolve_list : Predicate → SqlType → SqlType
  unfolding list_of_item is_type
  resolve_list predicate item =
      if any (is_type (predicate ∷ [])) list_predicates then list_of_item item else no_type

  unfoldable pub resolve_nested : Predicate → SqlType
  unfolding is_type
  resolve_nested predicate =
      if any (is_type (predicate ∷ [])) nested_predicates then nested_json else no_type

  unfoldable mutual
    unfolding resolve_scalar resolve_list resolve_nested list_kind_predicate

    pub resolve_sql_type : DataType → SqlType
    resolve_sql_type (scalar s) = resolve_scalar s
    resolve_sql_type (list_of kind item) =
        resolve_list (list_kind_predicate kind) (resolve_item item)
    resolve_sql_type (fixed_size_list item size) =
        resolve_list is_fixed_size_list (resolve_item item)
    resolve_sql_type (struct fields) = resolve_nested is_struct
    resolve_sql_type (map_of key item sorted) = resolve_nested is_map
    resolve_sql_type (dictionary index value ordered) = resolve_sql_type value
    resolve_sql_type (union_of fields dense codes) = resolve_nested is_union
    resolve_sql_type (extension name storage) = resolve_sql_type storage
    resolve_sql_type (run_end_encoded ends values) = no_type

    -- `resolve_sql_type(t.value_type)`
    pub resolve_item : Field → SqlType
    resolve_item (field name type nullable metadata) = resolve_sql_type type
