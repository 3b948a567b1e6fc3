-- ===== src/Dbapi/Types/Unchanged.antt =====
-- flightsql/dbapi.py, _normalized_temporal_type on types without nanoseconds.
use flightsql_dbapi.Prelude.{
  ◌≡◌, refl, ap, Bool, false, ◌||◌, Option, none, some, String, ◌<>◌, arith,
}
use flightsql_dbapi.Errors.{ok}
use flightsql_dbapi.Dbapi.Types.{
  DataType, scalar, list_of, fixed_size_list, struct, map_of, dictionary, union_of, extension,
  run_end_encoded, Field, field, Fields, nil, cons, Scalar, small, large, view, large_view,
  microsecond_scalar, contains_nanosecond, contains_in_field, contains_in_fields, is_some, or_same,
  unless_nanosecond, normalized_type, normalized_field, normalized_fields,
}

or_same_none : (o : Option Scalar) (s : Scalar) → is_some o ≡ false → or_same o s ≡ scalar s
or_same_none none s h = refl
or_same_none (some t) s h = cc

or-false : (a b : Bool) → (a || b) ≡ false → (a ≡ false) × (b ≡ false)
or-false a b h = ground arith

module _ (shown : DataType → String) where
  mutual
    unfolding normalized_type contains_nanosecond unless_nanosecond microsecond_scalar
        normalized_field normalized_fields contains_in_field contains_in_fields

    unchanged_tree :
        (type : DataType) (path : String)
        → contains_nanosecond type ≡ false
        → normalized_type shown type path ≡ ok type
    unchanged_tree (scalar s) path h = ap ok (or_same_none (microsecond_scalar s) s h)
    unchanged_tree (list_of small item) path h = rw (unchanged_field item (path <> "[]") h)
    unchanged_tree (list_of large item) path h = rw (unchanged_field item (path <> "[]") h)
    unchanged_tree (list_of view item) path h = rw h
    unchanged_tree (list_of large_view item) path h = rw h
    unchanged_tree (fixed_size_list item size) path h = rw (unchanged_field item (path <> "[]") h)
    unchanged_tree (struct fields) path h = rw (unchanged_fields fields path h)
    unchanged_tree (map_of key item sorted) path h =
        let (k, i) = or-false (contains_in_field key) (contains_in_field item) h in
        rw (unchanged_field key (path <> ".key") k, unchanged_field item (path <> ".value") i)
    unchanged_tree (dictionary index value ordered) path h =
        rw (unchanged_tree value (path <> ".dictionary") h)
    unchanged_tree (union_of fields dense codes) path h = rw (unchanged_fields fields path h)
    unchanged_tree (extension name storage) path h = rw h
    unchanged_tree (run_end_encoded ends values) path h = rw h

    unchanged_field :
        (f : Field) (path : String)
        → contains_in_field f ≡ false
        → normalized_field shown f path ≡ ok f
    unchanged_field (field name type nullable metadata) path h = rw (unchanged_tree type path h)

    unchanged_fields :
        (fs : Fields) (path : String)
        → contains_in_fields fs ≡ false
        → normalized_fields shown fs path ≡ ok fs
    unchanged_fields nil path h = refl
    unchanged_fields (cons (field name type nullable metadata) fs) path h =
        let (f, rest) = or-false (contains_nanosecond type) (contains_in_fields fs) h in
        rw (unchanged_tree type (path <> ("." <> name)) f, unchanged_fields fs path rest)

  -- A type without nanoseconds is normalized to itself, below every path.
  pub unchanged_type :
      (type : DataType) (path : String)
      → contains_nanosecond type ≡ false
      → normalized_type shown type path ≡ ok type
  unchanged_type type path clean = unchanged_tree type path clean
