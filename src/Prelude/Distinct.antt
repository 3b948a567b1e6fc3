-- ===== src/Prelude/Distinct.antt =====
-- Python's `list(dict.fromkeys(items))`: the items in the order of their first occurrence.
use flightsql_dbapi.Prelude.Tests.{
  Eq, ◌==◌, ==_refl, Bool-cases, contains, if◌then◌else◌, if-true, if-false,
}
use mathlib.Core.Path.{◌≡◌, refl, sym, ◌∙◌, subst}
use mathlib.Core.Logic.{inl, inr}
use mathlib.Core.Bool.{Bool, false, not, ◌&&◌}
use mathlib.Core.Option.{none}
use mathlib.Core.List.{List, [], ◌∷◌}
use native.Mathlib.Omega.{arith}
use flightsql_dbapi.Prelude.Dict.{Dict, keys, lookup, NodupKeys, contains-keys}

unfoldable pub remove : {A : Type 0} → (A → Bool) → List A → List A
remove p [] = []
remove p (x ∷ xs) = let rest = remove p xs in if p x then rest else x ∷ rest

unfoldable pub distinct : {A : Type 0} ⦃e : Eq A⦄ → List A → List A
unfolding remove
distinct [] = []
distinct (x ∷ xs) = x ∷ remove (λ other. other == x) (distinct xs)

module _ {A : Type 0} ⦃e : Eq A⦄ where
  abbrev pub Distinct : List A → Type 0
  Distinct [] = Unit {0}
  Distinct (x ∷ xs) = (contains xs x ≡ false) × Distinct xs

  pub contains-remove :
      (x y : A) (xs : List A)
      → contains (remove (λ z. z == y) xs) x ≡ (not (x == y) && contains xs x)
  unfolding remove
  contains-remove x y [] = ground arith
  contains-remove x y (z ∷ xs) = ground (arith, contains-remove x y xs)

  remove-Distinct : (y : A) (xs : List A) → Distinct xs → Distinct (remove (λ z. z == y) xs)
  unfolding remove
  remove-Distinct y [] h = tt
  remove-Distinct y (x ∷ xs) (fresh, h) = elim (Bool-cases (x == y)) [
    | inl same ↦
        subst (λ (l : List A). Distinct l)
          (sym (if-true (x == y) (remove (λ z. z == y) xs) (x ∷ remove (λ z. z == y) xs) same))
          (remove-Distinct y xs h)
    | inr differ ↦
        subst (λ (l : List A). Distinct l)
          (sym (if-false (x == y) (remove (λ z. z == y) xs) (x ∷ remove (λ z. z == y) xs) differ))
          (rw (contains-remove x y xs, fresh) ground arith, remove-Distinct y xs h)
  ]

  pub distinct-Distinct : (xs : List A) → Distinct (distinct xs)
  unfolding distinct
  distinct-Distinct [] = tt
  distinct-Distinct (x ∷ xs) = (
    contains-remove x x (distinct xs) ∙ rw (==_refl x) refl,
    remove-Distinct x (distinct xs) (distinct-Distinct xs),
  )

  pub contains-distinct : (x : A) (xs : List A) → contains (distinct xs) x ≡ contains xs x
  unfolding distinct
  contains-distinct x [] = refl
  contains-distinct x (y ∷ xs) =
      ground (arith, contains-remove x y (distinct xs), contains-distinct x xs)

absent_key :
    {K V : Type 0} ⦃e : Eq K⦄ (k : K) (d : Dict K V)
    → lookup k d ≡ none
    → contains (keys d) k ≡ false
absent_key k d fresh = elim (Bool-cases (contains (keys d) k)) [
  | inl has ↦ absurd ((contains-keys d k).0 has fresh)
  | inr missing ↦ missing
]

pub NodupKeys-Distinct : {K V : Type 0} ⦃e : Eq K⦄ (d : Dict K V) → NodupKeys d → Distinct (keys d)
unfolding lookup
NodupKeys-Distinct [] h = tt
NodupKeys-Distinct ((k, v) ∷ d) (fresh, h) = (absent_key k d fresh, NodupKeys-Distinct d h)
