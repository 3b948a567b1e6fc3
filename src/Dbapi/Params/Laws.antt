-- ===== src/Dbapi/Params/Laws.antt =====
-- flightsql/dbapi.py, build_parameter_record: which value each declared field takes, and what is
-- raised.
use flightsql_dbapi.Prelude.{
  and_parts, ℕ, zero, suc, ◌+◌, ◌<◌, ◌≤◌, ◌≡◌, refl, sym, ap, ◌∙◌, subst, ◌⊎◌, ◌↔◌, inl, inr, Bool,
  true, false, some, List, [], ◌∷◌, map, bytes_eq, contains, length, all, if-true, arith,
}
use flightsql_dbapi.Prelude.Text.{codes}
use flightsql_dbapi.Prelude.Decimal.{parse-decimal}
use flightsql_dbapi.Errors.{Exn, Result, ok, raised, ◌>>=◌}
use flightsql_dbapi.Dbapi.Params.{
  Value, Field, Schema, Arrow, numbered_name, numbered_names, parsed_or, at, placeholder_index,
  same_set,
}
use flightsql_dbapi.Dbapi.Params.Placeholders.{
  Placeholders, renumbered, contains-numbered_names, is_numbered-Placeholders,
}
use flightsql_dbapi.Dbapi.Params.Build.{
  one_based, value_for, is_numbered, bind_value, bind_fields, nullable_schema, build_declared, fits,
  build_parameter_record,
}

at_found :
    {X : Type 0} (i : ℕ) (values : List (Value X))
    → i < length values
    → (v : Value X) × (at i values ≡ ok v)
unfolding at
at_found i [] h = absurd (omega arith)
at_found zero (v ∷ values) h = (v, refl)
at_found (suc i) (v ∷ values) h = at_found i values (omega arith)

placeholder_index-numbered_name : (i : ℕ) → placeholder_index (numbered_name (codes "$") i) ≡ ok i
unfolding placeholder_index
placeholder_index-numbered_name i = ap parsed_or (parse-decimal i)

module _ {X : Type 0} where
  -- The value that is right for a field: of the placeholder in its name, or at its position.
  abbrev pub Designated : Bool → ℕ → List ℕ → List (Value X) → Value X → Type 0
  Designated true position name values v =
      (k : ℕ) × (name ≡ numbered_name (codes "$") (suc k)) × (at k values ≡ ok v)
  Designated false position name values v = at position values ≡ ok v

  value_for-Designated :
      (numbered : Bool) (position : ℕ) (name : List ℕ) (values : List (Value X))
      → (numbered ≡ true → contains (numbered_names (codes "$") 1 (length values)) name ≡ true)
      → position < length values
      → (v : Value X) × (value_for numbered position name values ≡ ok v)
        × Designated numbered position name values v
  unfolding value_for
  value_for-Designated false position name values named below =
      let (v, found) = at_found position values below in (v, found, found)
  value_for-Designated true position name values named below =
      let (k, inside, same) =
        contains-numbered_names (codes "$") name 1 (length values) (named refl) in
      let (v, found) = at_found k values inside in
      let same_name : name ≡ numbered_name (codes "$") (suc k) =
        same ∙ renumbered (codes "$") (1 + k) (suc k) (omega arith) in
      (
        v,
        ap (λ r. r >>= λ i. one_based i values)
              (ap placeholder_index same_name ∙ placeholder_index-numbered_name (suc k))
            ∙ found,
        (k, same_name, found),
      )

module _ {X T M A B : Type 0} (arrow : Arrow X T M A B) where
  -- One array for each field, of the value that is right for it.
  abbrev pub Bound : Bool → List (Value X) → ℕ → List (Field T M) → List A → Type 0
  Bound numbered values position [] [] = Unit {0}
  Bound numbered values position [] (a ∷ arrays) = ⊥
  Bound numbered values position (f ∷ fields) [] = ⊥
  Bound numbered values position (f ∷ fields) (a ∷ arrays) =
      ((v : Value X) × Designated numbered position f.name values v
        × (bind_value arrow v f.field_type ≡ ok a))
      × Bound numbered values (suc position) fields arrays

  -- Arrays that are right, or the exception of a value that does not convert.
  abbrev pub Bindings : Bool → List (Value X) → ℕ → List (Field T M) → Result (List A) → Type 0
  Bindings numbered values position fields (ok arrays) =
      Bound numbered values position fields arrays
  Bindings numbered values position fields (raised e) =
      (v : Value X) × (t : T) × (bind_value arrow v t ≡ raised e)

  abbrev Ready : Bool → List (Value X) → ℕ → List (Field T M) → Type 0
  Ready numbered values position fields =
      (numbered ≡ true
        → all (contains (numbered_names (codes "$") 1 (length values))) (map (λ f. f.name) fields)
          ≡ true)
      × (position + length fields ≤ length values)

  cons-Bindings :
      (numbered : Bool) (values : List (Value X)) (position : ℕ) (f : Field T M)
      (fields : List (Field T M)) (v : Value X) (bound : Result A) (rest : Result (List A))
      → Designated numbered position f.name values v
      → bind_value arrow v f.field_type ≡ bound
      → Bindings numbered values (suc position) fields rest
      → Bindings numbered values position
          (f ∷ fields)
          (bound >>= λ a. rest >>= λ arrays. ok (a ∷ arrays))
  cons-Bindings numbered values position f fields v (raised e) rest right e' h =
      (v, f.field_type, e')
  cons-Bindings numbered values position f fields v (ok a) (raised e) right e' h = h
  cons-Bindings numbered values position f fields v (ok a) (ok arrays) right e' h =
      ((v, right, e'), h)

  bind_fields-Bindings :
      (numbered : Bool) (values : List (Value X)) (position : ℕ) (fields : List (Field T M))
      → Ready numbered values position fields
      → Bindings numbered values position fields (bind_fields arrow numbered values position fields)
  unfolding bind_fields
  bind_fields-Bindings numbered values position [] ready = tt
  bind_fields-Bindings numbered values position (f ∷ fields) (named, fit) =
      let (v, found, right) =
        value_for-Designated numbered position f.name values (λ n. (and_parts _ _ (named n)).0)
          (omega arith) in
      let rest = bind_fields arrow numbered values (suc position) fields in
      subst
        (λ r. Bindings numbered values position (f ∷ fields) (
          r >>= λ value.
          bind_value arrow value f.field_type >>= λ a. rest >>= λ arrays. ok (a ∷ arrays)))
        (sym found)
        (cons-Bindings numbered values position f fields v (bind_value arrow v f.field_type) rest
          right refl
          (bind_fields-Bindings numbered values (suc position) fields
            (λ n. (and_parts _ _ (named n)).1, omega arith)))

  -- A record of right arrays, or the exception of a value that does not convert, or of the record.
  abbrev pub Built : Bool → List (Value X) → Schema T M → Result B → Type 0
  Built numbered values schema r =
      ((arrays : List A) × Bound numbered values 0 schema.fields arrays
        × (arrow.from_arrays arrays (nullable_schema schema) ≡ r))
      ⊎ ((e : Exn) × (r ≡ raised e) × ((v : Value X) × (t : T) × (bind_value arrow v t ≡ raised e)))

  make-Built :
      (numbered : Bool) (values : List (Value X)) (schema : Schema T M) (bound : Result (List A))
      → Bindings numbered values 0 schema.fields bound
      → Built numbered values schema
          (bound >>= λ arrays. arrow.from_arrays arrays (nullable_schema schema))
  make-Built numbered values schema (ok arrays) h = inl (arrays, h, refl)
  make-Built numbered values schema (raised e) h = inr (e, refl, h)

  fits-length :
      (values : List (Value X)) (schema : Schema T M)
      → fits arrow values schema ≡ true
      → length schema.fields ≡ length values
  unfolding fits
  fits-length values schema h = ground arith

  -- With a declared schema that fits the n values, each field takes the value of the placeholder in
  -- its name exactly where the names are $1 to $n in any order, and else the value at its position;
  -- what is returned is the record of the converted values under the schema with nullable fields,
  -- and nothing is raised but by the conversion of a value or by making that record.
  pub build_parameter_record-Built :
      (values : List (Value X)) (schema : Schema T M)
      → fits arrow values schema ≡ true
      → (numbered : Bool) × ((numbered ≡ true)
          ↔ Placeholders (map (λ f. f.name) schema.fields) (length values))
        × Built numbered values schema (build_parameter_record arrow values (some schema))
  unfolding build_parameter_record build_declared is_numbered same_set
  build_parameter_record-Built values schema h = (
    is_numbered schema values,
    is_numbered-Placeholders schema values,
    subst (Built (is_numbered schema values) values schema)
        (sym (if-true (fits arrow values schema) (build_declared arrow values schema) _ h))
        (make-Built (is_numbered schema values) values schema
          (bind_fields arrow (is_numbered schema values) values 0 schema.fields)
          (bind_fields-Bindings (is_numbered schema values) values 0 schema.fields
            (λ n. (and_parts _ _ n).0, omega (arith, fits-length values schema h)))),
  )
