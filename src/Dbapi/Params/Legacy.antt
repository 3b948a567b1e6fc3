-- ===== src/Dbapi/Params/Legacy.antt =====
-- flightsql/dbapi.py, ParameterRecordBuilder: the values that the record of unions holds.
use flightsql_dbapi.Prelude.{
  ℕ, zero, suc, ◌≡◌, refl, sym, ap, ◌∙◌, subst, true, Option, none, some, List, [], ◌∷◌, ◌++◌, map,
  ◌||◌, ◌==◌, length, length-append, contains, ==_refl, ==_ne, if-true, if-false, ◌⊎◌, inl, inr,
  arith,
}
use flightsql_dbapi.Prelude.Dict.{Dict, keys}
use flightsql_dbapi.Prelude.Text.{codes}
use flightsql_dbapi.Errors.{ok, ok_injective, bind_ok}
use flightsql_dbapi.Dbapi.Params.{
  ℤ, pos, negsuc, PyType, int, float, str, bytes, bool, type_eq, Value, Arrow, type_of,
  union_positions, numbered_names,
}
use flightsql_dbapi.Dbapi.Params.Build.{
  build_parameter_record, union_or_error, union_children, union_array_for_value, union_arrays,
  build_record,
}

abbrev pub child : {A : Type 0} → ℕ → List A → Option A
child i [] = none
child zero (a ∷ as_) = some a
child (suc i) (a ∷ as_) = child i as_

child_last : {A : Type 0} (xs : List A) (a : A) → child (length xs) (xs ++ (a ∷ [])) ≡ some a
child_last [] a = refl
child_last (x ∷ xs) a = child_last xs a

child_append :
    {A : Type 0} (k : ℕ) (xs : List A) (a b : A)
    → child k xs ≡ some a
    → child k (xs ++ (b ∷ [])) ≡ some a
child_append k [] a b h = cc
child_append zero (x ∷ xs) a b h = h
child_append (suc k) (x ∷ xs) a b h = child_append k xs a b h

length-snoc : {A : Type 0} (xs : List A) (a : A) → suc (length xs) ≡ length (xs ++ (a ∷ []))
length-snoc xs a = omega (arith, length-append xs (a ∷ []))

length-map : {A C : Type 0} (f : A → C) (xs : List A) → length (map f xs) ≡ length xs
length-map f [] = refl
length-map f (x ∷ xs) = ap suc (length-map f xs)

all_types : (t : PyType) → contains (keys union_positions) t ≡ true
all_types int = unfold type_eq in refl
all_types float = unfold type_eq in refl
all_types str = unfold type_eq in refl
all_types bytes = unfold type_eq in refl
all_types bool = unfold type_eq in refl

module _ {X T M A B : Type 0} (arrow : Arrow X T M A B) where
  -- The child that the type id names is the array of the value alone.
  abbrev Selected : PyType → Value X → ℤ × List A → Type 0
  Selected t v x =
      (a : A) × (k : ℕ) × (arrow.array (v ∷ []) (some (arrow.arrow_type t)) ≡ ok a)
      × (x.0 ≡ pos k)
      × (child k x.1 ≡ some a)

  -- The positions are those of the children to come.
  abbrev Counted : ℕ → Dict PyType ℕ → Type 0
  Counted n [] = Unit {0}
  Counted n ((u, position) ∷ rest) = (position ≡ n) × Counted (suc n) rest

  union_children-Selected :
      (t : PyType) (v : Value X) (positions : Dict PyType ℕ) (type_id : ℤ) (children : List A)
      (x : ℤ × List A)
      → Counted (length children) positions
      → (contains (keys positions) t ≡ true) ⊎ Selected t v (type_id, children)
      → union_children arrow t v positions type_id children ≡ ok x
      → Selected t v x
  unfolding union_children
  union_children-Selected t v [] type_id children x counted (inl h) e = cc
  union_children-Selected t v [] type_id children x counted (inr s) e =
      subst (Selected t v) (ok_injective _ _ e) s
  union_children-Selected t v ((u, position) ∷ rest) type_id children x (here, counted) before e =
      elim (type_eq.dec u t) [
        | yes same ↦
            let (a, made, e') =
              bind_ok (arrow.array (v ∷ []) (some (arrow.arrow_type u)))
                (λ child. union_children arrow t v rest (pos position) (children ++ (child ∷ [])))
                (x)
                (sym (if-true (u == t) _ _ (subst (λ w. (u == w) ≡ true) same (==_refl u))) ∙ e) in
            union_children-Selected t v rest (pos position) (children ++ (a ∷ [])) x
              (subst (λ n. Counted n rest) (length-snoc children a) counted)
              (inr (
                a,
                length children,
                subst (λ w. arrow.array (v ∷ []) (some (arrow.arrow_type w)) ≡ ok a) same made,
                ap pos here,
                child_last children a,
              ))
              e'
        | no differ ↦
            let (b, made, e') =
              bind_ok (arrow.array [] (some (arrow.arrow_type u)))
                (λ child. union_children arrow t v rest type_id (children ++ (child ∷ []))) x
                (sym (if-false (u == t) _ _ (==_ne u t differ)) ∙ e) in
            union_children-Selected t v rest type_id (children ++ (b ∷ [])) x
              (subst (λ n. Counted n rest) (length-snoc children b) counted)
              (elim before [
                | inl h ↦ inl (
                    sym (ap (λ c. c || contains (keys rest) t) (==_ne t u (λ p. differ (sym p))))
                    ∙ h)
                | inr (a, k, made_a, id, kept) ↦
                    inr (a, k, made_a, id, child_append k children a b kept)
              ])
              e'
      ]

module _ {X T M A B : Type 0} (arrow : Arrow X T M A B) (first : A → Option (Value X))
    (first_of_array : (t : PyType) (v : Value X) (a : A)
      → type_of v ≡ some t
      → arrow.array (v ∷ []) (some (arrow.arrow_type t)) ≡ ok a
      → first a ≡ some v)
    (first_of_union : (k : ℕ) (children : List A) (a u : A)
      → child k children ≡ some a
      → arrow.union_from_dense (pos k ∷ []) (0 ∷ []) children ≡ ok u
      → first u ≡ first a) where
  first_of_typed :
      (v : Value X) (t : Option PyType) (u : A)
      → type_of v ≡ t
      → union_or_error arrow v t ≡ ok u
      → first u ≡ some v
  first_of_typed v none u typed e = cc
  first_of_typed v (some t) u typed e =
      let (x, made, e') = bind_ok (union_children arrow t v union_positions (negsuc 0) []) _ u e in
      let (a, k, one, id, kept) =
        union_children-Selected arrow t v union_positions (negsuc 0) [] x
          (refl, (refl, (refl, (refl, (refl, tt))))) (inl (all_types t)) made in
      first_of_union k x.1 a u kept
        (subst (λ i. arrow.union_from_dense (i ∷ []) (0 ∷ []) x.1 ≡ ok u) id e')
      ∙ first_of_array t v a typed one

  union_arrays-values :
      (values : List (Value X)) (columns : List A)
      → union_arrays arrow values ≡ ok columns
      → map first columns ≡ map some values
  unfolding union_arrays union_array_for_value
  union_arrays-values [] columns e = ap (map first) (sym (ok_injective [] columns e))
  union_arrays-values (v ∷ values) columns e =
      let (c, made, e') = bind_ok (union_or_error arrow v (type_of v)) _ columns e in
      let (cs, rest, e'') = bind_ok (union_arrays arrow values) _ columns e' in
      ap (map first) (sym (ok_injective (c ∷ cs) columns e''))
      ∙ (λ i. first_of_typed v (type_of v) c refl made i ∷ union_arrays-values values cs rest i)

  -- Where arrays hold the values they are made of, and a dense union the first value of the child
  -- that its type id names: where the record for a server without parameter schema is made, it
  -- is the record of columns that hold exactly the given values, in their order.
  pub build_record-values :
      (values : List (Value X)) (batch : B)
      → build_parameter_record arrow values none ≡ ok batch
      → (columns : List A) × (map first columns ≡ map some values)
        × (arrow.from_named columns (numbered_names (codes "param_") 0 (length values)) ≡ ok batch)
  unfolding build_parameter_record build_record numbered_names
  build_record-values [] batch e = ([], refl, e)
  build_record-values (v ∷ values) batch e =
      let (columns, made, e') = bind_ok (union_arrays arrow (v ∷ values)) _ batch e in
      let same : map first columns ≡ map some (v ∷ values) =
        union_arrays-values (v ∷ values) columns made in
      (
        columns,
        same,
        subst (λ n. arrow.from_named columns (numbered_names (codes "param_") 0 n) ≡ ok batch)
            (sym (length-map first columns) ∙ ap length same ∙ length-map some (v ∷ values)) e',
      )
