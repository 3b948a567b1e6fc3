-- ===== src/Dbapi/Types/Normal.antt =====
-- flightsql/dbapi.py, _normalized_temporal_type: what the types that it returns may hold.
use flightsql_dbapi.Prelude.{
  ◌≡◌, refl, sym, subst, Bool-cases, if-true, if-false, inl, inr, Bool, false, ◌||◌, String, ◌<>◌,
}
use flightsql_dbapi.Errors.{Result, ok, raised}
use flightsql_dbapi.Effects.Every.{Every, Every-map}
use flightsql_dbapi.Dbapi.Types.{
  DataType, scalar, list_of, fixed_size_list, struct, map_of, dictionary, union_of, extension,
  run_end_encoded, Field, field, Fields, nil, cons, Scalar, null_type, boolean, int8, int16, int32,
  int64, uint8, uint16, uint32, uint64, float16, float32, float64, utf8, large_utf8, utf8_view,
  binary, large_binary, binary_view, date32, date64, interval, fixed_size_binary, decimal, time32,
  time64, duration, timestamp, second, millisecond, microsecond, nanosecond, small, large, view,
  large_view, microsecond_scalar, contains_nanosecond, contains_in_field, contains_in_fields,
  and_ok, or_same, unless_nanosecond, unsupported, normalized_type, normalized_field,
  normalized_fields,
}
use flightsql_dbapi.Dbapi.Types.Unchanged.{unchanged_type}

clean_scalar : (s : Scalar) → contains_nanosecond (or_same (microsecond_scalar s) s) ≡ false
unfolding contains_nanosecond microsecond_scalar
clean_scalar null_type = refl
clean_scalar boolean = refl
clean_scalar int8 = refl
clean_scalar int16 = refl
clean_scalar int32 = refl
clean_scalar int64 = refl
clean_scalar uint8 = refl
clean_scalar uint16 = refl
clean_scalar uint32 = refl
clean_scalar uint64 = refl
clean_scalar float16 = refl
clean_scalar float32 = refl
clean_scalar float64 = refl
clean_scalar utf8 = refl
clean_scalar large_utf8 = refl
clean_scalar utf8_view = refl
clean_scalar binary = refl
clean_scalar large_binary = refl
clean_scalar binary_view = refl
clean_scalar date32 = refl
clean_scalar date64 = refl
clean_scalar interval = refl
clean_scalar (fixed_size_binary n) = refl
clean_scalar (decimal p s) = refl
clean_scalar (time32 second) = refl
clean_scalar (time32 millisecond) = refl
clean_scalar (time32 microsecond) = refl
clean_scalar (time32 nanosecond) = refl
clean_scalar (time64 second) = refl
clean_scalar (time64 millisecond) = refl
clean_scalar (time64 microsecond) = refl
clean_scalar (time64 nanosecond) = refl
clean_scalar (duration second) = refl
clean_scalar (duration millisecond) = refl
clean_scalar (duration microsecond) = refl
clean_scalar (duration nanosecond) = refl
clean_scalar (timestamp second tz) = refl
clean_scalar (timestamp millisecond tz) = refl
clean_scalar (timestamp microsecond tz) = refl
clean_scalar (timestamp nanosecond tz) = refl

pub Every-and_ok :
    {A B : Type 0} (P : A → Type 0) (Q : B → Type 0) (r : Result A) (f : A → Result B)
    → Every P r
    → ((a : A) → P a → Every Q (f a))
    → Every Q (and_ok r f)
Every-and_ok P Q (ok a) f h k = k a h
Every-and_ok P Q (raised e) f h k = tt

abbrev pub Clean : DataType → Type 0
Clean type = contains_nanosecond type ≡ false

abbrev CleanField : Field → Type 0
CleanField f = contains_in_field f ≡ false

abbrev CleanFields : Fields → Type 0
CleanFields fs = contains_in_fields fs ≡ false

both-false : (a b : Bool) → a ≡ false → b ≡ false → (a || b) ≡ false
both-false a b p q = cc (p, q)

module _ (shown : DataType → String) where
  unless_nanosecond-Clean :
      (type : DataType) (path : String) → Every Clean (unless_nanosecond shown type path)
  unfolding unless_nanosecond
  unless_nanosecond-Clean type path = elim (Bool-cases (contains_nanosecond type)) [
    | inl has ↦
        subst (λ (r : Result DataType). Every Clean r)
          (sym (
            if-true (contains_nanosecond type) (raised (unsupported shown type path)) (ok type)
              has))
          tt
    | inr clean ↦
        subst (λ (r : Result DataType). Every Clean r)
          (sym (
            if-false (contains_nanosecond type) (raised (unsupported shown type path)) (ok type)
              clean))
          clean
  ]

  mutual
    unfolding normalized_type contains_nanosecond

    normalized_tree-Clean :
        (type : DataType) (path : String) → Every Clean (normalized_type shown type path)
    normalized_tree-Clean (scalar s) path = clean_scalar s
    normalized_tree-Clean (list_of small item) path =
        Every-and_ok CleanField Clean (normalized_field shown item (path <> "[]"))
          (λ f. ok (list_of small f)) (normalized_field-Clean item (path <> "[]")) (λ f h. h)
    normalized_tree-Clean (list_of large item) path =
        Every-and_ok CleanField Clean (normalized_field shown item (path <> "[]"))
          (λ f. ok (list_of large f)) (normalized_field-Clean item (path <> "[]")) (λ f h. h)
    normalized_tree-Clean (list_of view item) path =
        unless_nanosecond-Clean (list_of view item) path
    normalized_tree-Clean (list_of large_view item) path =
        unless_nanosecond-Clean (list_of large_view item) path
    normalized_tree-Clean (fixed_size_list item size) path =
        Every-and_ok CleanField Clean (normalized_field shown item (path <> "[]"))
          (λ f. ok (fixed_size_list f size)) (normalized_field-Clean item (path <> "[]")) (λ f h. h)
    normalized_tree-Clean (struct fields) path =
        Every-and_ok CleanFields Clean (normalized_fields shown fields path) (λ fs. ok (struct fs))
          (normalized_fields-Clean fields path) (λ fs h. h)
    normalized_tree-Clean (map_of key item sorted) path =
        Every-and_ok CleanField Clean (normalized_field shown key (path <> ".key"))
          (λ k.
            and_ok (normalized_field shown item (path <> ".value")) (λ i. ok (map_of k i sorted)))
          (normalized_field-Clean key (path <> ".key"))
          (λ k hk.
            Every-and_ok CleanField Clean (normalized_field shown item (path <> ".value"))
              (λ i. ok (map_of k i sorted)) (normalized_field-Clean item (path <> ".value"))
              (λ i hi. both-false (contains_in_field k) (contains_in_field i) hk hi))
    normalized_tree-Clean (dictionary index value ordered) path =
        Every-and_ok Clean Clean (normalized_type shown value (path <> ".dictionary"))
          (λ v. ok (dictionary index v ordered))
          (normalized_tree-Clean value (path <> ".dictionary")) (λ v h. h)
    normalized_tree-Clean (union_of fields dense codes) path =
        Every-and_ok CleanFields Clean (normalized_fields shown fields path)
          (λ fs. ok (union_of fs dense codes)) (normalized_fields-Clean fields path) (λ fs h. h)
    normalized_tree-Clean (extension name storage) path =
        unless_nanosecond-Clean (extension name storage) path
    normalized_tree-Clean (run_end_encoded ends values) path =
        unless_nanosecond-Clean (run_end_encoded ends values) path

    normalized_field-Clean :
        (f : Field) (path : String) → Every CleanField (normalized_field shown f path)
    normalized_field-Clean (field name type nullable metadata) path =
        Every-and_ok Clean CleanField (normalized_type shown type path)
          (λ t. ok (field name t nullable metadata)) (normalized_tree-Clean type path) (λ t h. h)

    normalized_fields-Clean :
        (fs : Fields) (path : String) → Every CleanFields (normalized_fields shown fs path)
    normalized_fields-Clean nil path = refl
    normalized_fields-Clean (cons (field name type nullable metadata) fs) path =
        Every-and_ok CleanField CleanFields
          (normalized_field shown (field name type nullable metadata) (path <> ("." <> name)))
          (λ f. and_ok (normalized_fields shown fs path) (λ rest. ok (cons f rest)))
          (normalized_field-Clean (field name type nullable metadata) (path <> ("." <> name)))
          (λ f hf.
            Every-and_ok CleanFields CleanFields (normalized_fields shown fs path)
              (λ rest. ok (cons f rest)) (normalized_fields-Clean fs path)
              (λ rest hr. both-false (contains_in_field f) (contains_in_fields rest) hf hr))

  -- Where `_normalized_temporal_type` returns, the type holds no nanoseconds at any depth.
  pub normalized_type-Clean :
      (type : DataType) (path : String) → Every Clean (normalized_type shown type path)
  normalized_type-Clean type path = normalized_tree-Clean type path

  -- Normalizing again, below any path, changes nothing: where the first call returns `t`, the
  -- second returns `t` too.
  pub normalized_type_idem :
      (type : DataType) (path path' : String)
      → Every (λ t. normalized_type shown t path' ≡ ok t) (normalized_type shown type path)
  normalized_type_idem type path path' =
      Every-map Clean (λ t. normalized_type shown t path' ≡ ok t) (normalized_type shown type path)
        (λ t clean. unchanged_type shown t path' clean) (normalized_tree-Clean type path)
