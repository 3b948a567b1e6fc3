-- ===== src/Dbapi/Types/Agree.antt =====
-- flightsql/dbapi.py: resolve_sql_type beside _normalized_temporal_type.
use flightsql_dbapi.Prelude.{
  ◌≡◌, refl, ap, subst, sym, Bool, Bool-cases, if-true, if-false, inl, inr, String, ◌<>◌,
}
use flightsql_dbapi.Errors.{Result, ok, raised}
use flightsql_dbapi.Dbapi.Types.{
  DataType, scalar, list_of, fixed_size_list, struct, map_of, dictionary, union_of, extension,
  run_end_encoded, Field, field, Scalar, null_type, boolean, int8, int16, int32, int64, uint8,
  uint16, uint32, uint64, float16, float32, float64, utf8, large_utf8, utf8_view, binary,
  large_binary, binary_view, date32, date64, interval, fixed_size_binary, decimal, time32, time64,
  duration, timestamp, second, millisecond, microsecond, nanosecond, small, large, view, large_view,
  microsecond_scalar, contains_nanosecond, and_ok, or_same, unless_nanosecond, unsupported,
  normalized_type, normalized_field, normalized_fields,
}
use flightsql_dbapi.Effects.Every.{Every, Every-Unit}
use flightsql_dbapi.Dbapi.Types.Normal.{Every-and_ok}
use flightsql_dbapi.Dbapi.Types.Sql.{
  Predicate, is_fixed_size_list, resolve_list, list_kind_predicate, resolve_scalar,
  resolve_sql_type, resolve_item,
}

always :
    {A B : Type 0} (Q : B → Type 0) (r : Result A) (f : A → Result B)
    → ((a : A) → Every Q (f a))
    → Every Q (and_ok r f)
always {A} Q r f h = Every-and_ok (λ (_ : A). Unit {0}) Q r f (Every-Unit r) (λ a _. h a)

module _ (known : Predicate → Bool) (shown : DataType → String) where
  abbrev pub SameSql : DataType → DataType → Type 0
  SameSql type t = resolve_sql_type known t ≡ resolve_sql_type known type

  resolve_scalar-same : (s : Scalar) → SameSql (scalar s) (or_same (microsecond_scalar s) s)
  unfolding resolve_sql_type microsecond_scalar resolve_scalar
  resolve_scalar-same null_type = refl
  resolve_scalar-same boolean = refl
  resolve_scalar-same int8 = refl
  resolve_scalar-same int16 = refl
  resolve_scalar-same int32 = refl
  resolve_scalar-same int64 = refl
  resolve_scalar-same uint8 = refl
  resolve_scalar-same uint16 = refl
  resolve_scalar-same uint32 = refl
  resolve_scalar-same uint64 = refl
  resolve_scalar-same float16 = refl
  resolve_scalar-same float32 = refl
  resolve_scalar-same float64 = refl
  resolve_scalar-same utf8 = refl
  resolve_scalar-same large_utf8 = refl
  resolve_scalar-same utf8_view = refl
  resolve_scalar-same binary = refl
  resolve_scalar-same large_binary = refl
  resolve_scalar-same binary_view = refl
  resolve_scalar-same date32 = refl
  resolve_scalar-same date64 = refl
  resolve_scalar-same interval = refl
  resolve_scalar-same (fixed_size_binary n) = refl
  resolve_scalar-same (decimal p s) = refl
  resolve_scalar-same (time32 second) = refl
  resolve_scalar-same (time32 millisecond) = refl
  resolve_scalar-same (time32 microsecond) = refl
  resolve_scalar-same (time32 nanosecond) = refl
  resolve_scalar-same (time64 second) = refl
  resolve_scalar-same (time64 millisecond) = refl
  resolve_scalar-same (time64 microsecond) = refl
  resolve_scalar-same (time64 nanosecond) = refl
  resolve_scalar-same (duration second) = refl
  resolve_scalar-same (duration millisecond) = refl
  resolve_scalar-same (duration microsecond) = refl
  resolve_scalar-same (duration nanosecond) = refl
  resolve_scalar-same (timestamp second tz) = refl
  resolve_scalar-same (timestamp millisecond tz) = refl
  resolve_scalar-same (timestamp microsecond tz) = refl
  resolve_scalar-same (timestamp nanosecond tz) = refl

  unless_nanosecond-same :
      (type : DataType) (path : String) → Every (SameSql type) (unless_nanosecond shown type path)
  unfolding unless_nanosecond
  unless_nanosecond-same type path = elim (Bool-cases (contains_nanosecond type)) [
    | inl has ↦
        subst (λ (r : Result DataType). Every (SameSql type) r)
          (sym (
            if-true (contains_nanosecond type) (raised (unsupported shown type path)) (ok type)
              has))
          tt
    | inr clean ↦
        subst (λ (r : Result DataType). Every (SameSql type) r)
          (sym (
            if-false (contains_nanosecond type) (raised (unsupported shown type path)) (ok type)
              clean))
          refl
  ]

  mutual
    unfolding normalized_type resolve_sql_type

    normalized_tree-SameSql :
        (type : DataType) (path : String) → Every (SameSql type) (normalized_type shown type path)
    normalized_tree-SameSql (scalar s) path = resolve_scalar-same s
    normalized_tree-SameSql (list_of small item) path =
        Every-and_ok (λ f. resolve_item known f ≡ resolve_item known item)
          (SameSql (list_of small item)) (normalized_field shown item (path <> "[]"))
          (λ f. ok (list_of small f)) (normalized_field-same item (path <> "[]"))
          (λ f h. ap (resolve_list known (list_kind_predicate small)) h)
    normalized_tree-SameSql (list_of large item) path =
        Every-and_ok (λ f. resolve_item known f ≡ resolve_item known item)
          (SameSql (list_of large item)) (normalized_field shown item (path <> "[]"))
          (λ f. ok (list_of large f)) (normalized_field-same item (path <> "[]"))
          (λ f h. ap (resolve_list known (list_kind_predicate large)) h)
    normalized_tree-SameSql (list_of view item) path =
        unless_nanosecond-same (list_of view item) path
    normalized_tree-SameSql (list_of large_view item) path =
        unless_nanosecond-same (list_of large_view item) path
    normalized_tree-SameSql (fixed_size_list item size) path =
        Every-and_ok (λ f. resolve_item known f ≡ resolve_item known item)
          (SameSql (fixed_size_list item size)) (normalized_field shown item (path <> "[]"))
          (λ f. ok (fixed_size_list f size)) (normalized_field-same item (path <> "[]"))
          (λ f h. ap (resolve_list known is_fixed_size_list) h)
    normalized_tree-SameSql (struct fields) path =
        always (SameSql (struct fields)) (normalized_fields shown fields path)
          (λ fs. ok (struct fs)) (λ fs. refl)
    normalized_tree-SameSql (map_of key item sorted) path =
        always (SameSql (map_of key item sorted)) (normalized_field shown key (path <> ".key"))
          (λ k.
            and_ok (normalized_field shown item (path <> ".value")) (λ i. ok (map_of k i sorted)))
          (λ k.
            always (SameSql (map_of key item sorted))
              (normalized_field shown item (path <> ".value")) (λ i. ok (map_of k i sorted))
              (λ i. refl))
    normalized_tree-SameSql (dictionary index value ordered) path =
        Every-and_ok (SameSql value) (SameSql (dictionary index value ordered))
          (normalized_type shown value (path <> ".dictionary"))
          (λ v. ok (dictionary index v ordered))
          (normalized_tree-SameSql value (path <> ".dictionary")) (λ v h. h)
    normalized_tree-SameSql (union_of fields dense codes) path =
        always (SameSql (union_of fields dense codes)) (normalized_fields shown fields path)
          (λ fs. ok (union_of fs dense codes)) (λ fs. refl)
    normalized_tree-SameSql (extension name storage) path =
        unless_nanosecond-same (extension name storage) path
    normalized_tree-SameSql (run_end_encoded ends values) path =
        unless_nanosecond-same (run_end_encoded ends values) path

    normalized_field-same :
        (item : Field) (path : String)
        → Every
            (λ f. resolve_item known f ≡ resolve_item known item)
            (normalized_field shown item path)
    normalized_field-same (field name type nullable metadata) path =
        Every-and_ok (SameSql type)
          (λ f. resolve_item known f ≡ resolve_item known (field name type nullable metadata))
          (normalized_type shown type path) (λ t. ok (field name t nullable metadata))
          (normalized_tree-SameSql type path) (λ t h. h)

  -- Where `_normalized_temporal_type` returns, the type it returns has the SQL type of the type that
  -- it was given.
  pub normalized_type-SameSql :
      (type : DataType) (path : String) → Every (SameSql type) (normalized_type shown type path)
  normalized_type-SameSql type path = normalized_tree-SameSql type path
