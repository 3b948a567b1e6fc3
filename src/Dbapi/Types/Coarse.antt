-- ===== src/Dbapi/Types/Coarse.antt =====
-- flightsql/dbapi.py, _normalized_temporal_type: no type in nanoseconds is left, by what Arrow's
-- types are and not by the code's own test for them.
use flightsql_dbapi.Prelude.{◌≡◌, ◌≢◌, false, Option, none, some, String, or_left, or_right}
use flightsql_dbapi.Effects.Every.{Every, Every-map}
use flightsql_dbapi.Dbapi.Types.{
  DataType, scalar, list_of, fixed_size_list, struct, map_of, dictionary, union_of, extension,
  run_end_encoded, Field, field, Fields, nil, cons, Scalar, time64, duration, timestamp, TimeUnit,
  nanosecond, is_some, microsecond_scalar, contains_nanosecond, contains_in_field,
  contains_in_fields, normalized_type,
}
use flightsql_dbapi.Dbapi.Types.Normal.{Clean, normalized_type-Clean}

-- The unit of a type that may count nanoseconds; a time32 counts seconds or milliseconds.
abbrev pub unit_of : Scalar → Option TimeUnit
unit_of (timestamp unit tz) = some unit
unit_of (time64 unit) = some unit
unit_of (duration unit) = some unit
unit_of _ = none

-- No type in it is in nanoseconds, at any depth. The index type of a dictionary is an integer.
unfoldable mutual
  pub Coarse : DataType → Type 0
  Coarse (scalar s) = unit_of s ≢ some nanosecond
  Coarse (list_of kind item) = CoarseField item
  Coarse (fixed_size_list item size) = CoarseField item
  Coarse (struct fields) = CoarseFields fields
  Coarse (map_of key item sorted) = CoarseField key × CoarseField item
  Coarse (dictionary index value ordered) = Coarse value
  Coarse (union_of fields dense codes) = CoarseFields fields
  Coarse (extension name storage) = Coarse storage
  Coarse (run_end_encoded ends values) = Coarse ends × Coarse values

  pub CoarseField : Field → Type 0
  CoarseField (field name type nullable metadata) = Coarse type

  pub CoarseFields : Fields → Type 0
  CoarseFields nil = Unit {0}
  CoarseFields (cons f fs) = CoarseField f × CoarseFields fs

coarse_scalar : (s : Scalar) → is_some (microsecond_scalar s) ≡ false → unit_of s ≢ some nanosecond
unfolding microsecond_scalar
coarse_scalar (timestamp nanosecond tz) e p = cc
coarse_scalar (time64 nanosecond) e p = cc
coarse_scalar (duration nanosecond) e p = cc
coarse_scalar _ e p = cc

mutual
  unfolding contains_nanosecond Coarse

  Clean-Coarse : (type : DataType) → contains_nanosecond type ≡ false → Coarse type
  Clean-Coarse (scalar s) e = coarse_scalar s e
  Clean-Coarse (list_of kind item) e = clean_field item e
  Clean-Coarse (fixed_size_list item size) e = clean_field item e
  Clean-Coarse (struct fields) e = clean_fields fields e
  Clean-Coarse (map_of key item sorted) e =
      (clean_field key (or_left _ _ e), clean_field item (or_right _ _ e))
  Clean-Coarse (dictionary index value ordered) e = Clean-Coarse value e
  Clean-Coarse (union_of fields dense codes) e = clean_fields fields e
  Clean-Coarse (extension name storage) e = Clean-Coarse storage e
  Clean-Coarse (run_end_encoded ends values) e =
      (Clean-Coarse ends (or_left _ _ e), Clean-Coarse values (or_right _ _ e))

  clean_field : (f : Field) → contains_in_field f ≡ false → CoarseField f
  clean_field (field name type nullable metadata) e = Clean-Coarse type e

  clean_fields : (fs : Fields) → contains_in_fields fs ≡ false → CoarseFields fs
  clean_fields nil e = tt
  clean_fields (cons f fs) e = (clean_field f (or_left _ _ e), clean_fields fs (or_right _ _ e))

-- Where `_normalized_temporal_type` returns, the type holds no timestamp, time64 or duration in
-- nanoseconds at any depth.
pub normalized_type-Coarse :
    (shown : DataType → String) (type : DataType) (path : String)
    → Every Coarse (normalized_type shown type path)
normalized_type-Coarse shown type path =
    Every-map Clean Coarse (normalized_type shown type path) Clean-Coarse
      (normalized_type-Clean shown type path)
