-- ===== src/Prelude/Dict.antt =====
-- Python's dict in insertion order, as an association list.
use flightsql_dbapi.Prelude.Tests.{Eq, Bool-cases, ◌==◌, contains, if◌then◌else◌}
use flightsql_dbapi.Prelude.Lists.{All}
use mathlib.Core.Path.{◌≡◌, refl}
use mathlib.Core.Logic.{◌≢◌, ◌↔◌, ◌⊎◌, inl, inr}
use mathlib.Core.Bool.{true, false}
use mathlib.Core.Option.{Option, none, some}
use mathlib.Core.List.{List, [], ◌∷◌, ◌++◌}
use native.Mathlib.Omega.{arith}

abbrev pub Dict {ℓ κ} : Type ℓ → Type κ → Type (ℓ ⊔ κ)
Dict K V = List (K × V)

abbrev pub keys {ℓ κ} : {K : Type ℓ} {V : Type κ} → Dict K V → List K
keys [] = []
keys ((k, v) ∷ d) = k ∷ keys d

module _ {ℓ κ} {K : Type ℓ} {V : Type κ} ⦃e : Eq K⦄ where
  -- `d.get(k)`
  unfoldable pub lookup : K → Dict K V → Option V
  lookup k [] = none
  lookup k ((j, v) ∷ d) = if k == j then some v else lookup k d

  -- `d[k] = v`: a key that is there keeps its place.
  unfoldable pub insert : K → V → Dict K V → Dict K V
  insert k v [] = (k, v) ∷ []
  insert k v ((j, w) ∷ d) = if k == j then (k, v) ∷ d else (j, w) ∷ insert k v d

  -- `d.setdefault(k, v)`, for its effect.
  unfoldable pub set_default : K → V → Dict K V → Dict K V
  set_default k v [] = (k, v) ∷ []
  set_default k v ((j, w) ∷ d) =
      let rest = set_default k v d in if k == j then (j, w) ∷ d else (j, w) ∷ rest

  -- `d.pop(k, None)`, for its effect.
  unfoldable pub erase : K → Dict K V → Dict K V
  erase k [] = []
  erase k ((j, w) ∷ d) = let rest = erase k d in if k == j then rest else (j, w) ∷ rest

  pub lookup-insert :
      (j k : K) (v : V) (d : Dict K V)
      → lookup j (insert k v d) ≡ (if j == k then some v else lookup j d)
  unfolding insert lookup
  lookup-insert j k v [] = refl
  lookup-insert j k v (_ ∷ d) = ground (arith, lookup-insert j k v d)

  pub lookup-erase :
      (j k : K) (d : Dict K V) → lookup j (erase k d) ≡ (if j == k then none else lookup j d)
  unfolding erase lookup
  lookup-erase j k [] = ground arith
  lookup-erase j k (_ ∷ d) = ground (arith, lookup-erase j k d)

  -- A lookup finds the first entry, or looks into the rest.
  pub lookup-cons :
      (k j : K) (w : V) (d : Dict K V) (o : Option V)
      → lookup k ((j, w) ∷ d) ≡ o
      → ((k ≡ j) × (some w ≡ o)) ⊎ ((k ≢ j) × (lookup k d ≡ o))
  unfolding lookup
  lookup-cons k j w d o h = elim (e.dec k j) [
    | yes same ↦ inl (same, ground arith)
    | no differ ↦ inr (differ, ground arith)
  ]

  pub contains-keys : (d : Dict K V) (k : K) → (contains (keys d) k ≡ true) ↔ (lookup k d ≢ none)
  unfolding lookup
  contains-keys [] k = (λ h. cc, λ h. absurd (h refl))
  contains-keys (_ ∷ d) k = ground (arith, contains-keys d k)

  -- `dict(pairs)`: of two entries with one key the last wins, in the place of the first.
  unfoldable pub update : Dict K V → List (K × V) → Dict K V
  unfolding insert
  update d [] = d
  update d ((k, v) ∷ pairs) = update (insert k v d) pairs

  -- The value of the last pair with the key.
  unfoldable pub last_value : K → List (K × V) → Option V → Option V
  last_value k [] before = before
  last_value k ((j, v) ∷ pairs) before = last_value k pairs (if k == j then some v else before)

  pub lookup-update :
      (j : K) (d : Dict K V) (pairs : List (K × V))
      → lookup j (update d pairs) ≡ last_value j pairs (lookup j d)
  unfolding update last_value
  lookup-update j d [] = refl
  lookup-update j d ((k, v) ∷ pairs) =
      rw (lookup-update j (insert k v d) pairs, lookup-insert j k v d)

  pub last_value-append :
      (k : K) (xs ys : List (K × V)) (before : Option V)
      → last_value k (xs ++ ys) before ≡ last_value k ys (last_value k xs before)
  unfolding last_value
  last_value-append k [] ys before = refl
  last_value-append k ((j, v) ∷ xs) ys before = last_value-append k xs ys _

  abbrev pub NodupKeys : Dict K V → Type κ
  NodupKeys [] = Unit
  NodupKeys ((k, _) ∷ d) = (lookup k d ≡ none) × NodupKeys d

  pub insert-NodupKeys : (k : K) (v : V) (d : Dict K V) → NodupKeys d → NodupKeys (insert k v d)
  unfolding insert lookup
  insert-NodupKeys k v [] h = (refl, tt)
  insert-NodupKeys k v ((j, w) ∷ d) (fresh, u) =
      ground (arith, insert-NodupKeys k v d u, lookup-insert j k v d)

  -- A key that is not there comes last.
  pub keys-insert :
      (k : K) (v : V) (d : Dict K V)
      → contains (keys d) k ≡ false
      → keys (insert k v d) ≡ keys d ++ (k ∷ [])
  unfolding insert
  keys-insert k v [] h = refl
  keys-insert k v ((j, w) ∷ d) h = ground (arith, keys-insert k v d)

  pub update-NodupKeys :
      (d : Dict K V) (pairs : List (K × V)) → NodupKeys d → NodupKeys (update d pairs)
  unfolding update
  update-NodupKeys d [] h = h
  update-NodupKeys d ((k, v) ∷ pairs) h =
      update-NodupKeys (insert k v d) pairs (insert-NodupKeys k v d h)

pub All-insert :
    {K V : Type 0} ⦃e : Eq K⦄ (P : K × V → Type 0) (k : K) (v : V) (d : Dict K V)
    → P (k, v)
    → All P d
    → All P (insert k v d)
unfolding insert
All-insert P k v [] p h = (p, tt)
All-insert P k v ((j, w) ∷ d) p (first, rest) = elim (Bool-cases (k == j)) [
  | inl same ↦ rw same (p, rest)
  | inr differ ↦ rw differ (first, All-insert P k v d p rest)
]
