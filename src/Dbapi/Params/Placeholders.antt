-- ===== src/Dbapi/Params/Placeholders.antt =====
-- flightsql/dbapi.py, build_parameter_record: when the fields are placeholders by number.
use flightsql_dbapi.Prelude.{
  and_parts, ℕ, zero, suc, ◌+◌, ◌<◌, ◌≡◌, refl, sym, ap, ◌∙◌, ◌↔◌, inl, inr, Bool, true, false,
  ◌||◌, ◌&&◌, List, [], ◌∷◌, map, ◌==◌, ==_refl, eq_of_==, bytes_eq, contains, length, all, All,
  Bool-cases, ltb, arith,
}
use flightsql_dbapi.Prelude.Text.{codes}
use flightsql_dbapi.Dbapi.Params.{Value, Schema, numbered_name, numbered_names, same_set}
use flightsql_dbapi.Dbapi.Params.Build.{is_numbered}

-- One of the names $1 to $count.
abbrev pub IsPlaceholder : ℕ → List ℕ → Type 0
IsPlaceholder count name = (k : ℕ) × (k < count) × (name ≡ numbered_name (codes "$") (suc k))

-- Each of the names $1 to $count is there.
abbrev pub HasEach : List (List ℕ) → ℕ → Type 0
HasEach names zero = Unit {0}
HasEach names (suc count) =
    (contains names (numbered_name (codes "$") (suc count)) ≡ true) × HasEach names count

-- The names are $1 to $count, in any order.
abbrev pub Placeholders : List (List ℕ) → ℕ → Type 0
Placeholders names count = All (IsPlaceholder count) names × HasEach names count

pub renumbered :
    (prefix : List ℕ) (i j : ℕ) → i ≡ j → numbered_name prefix i ≡ numbered_name prefix j
renumbered prefix i j e = ap (numbered_name prefix) e

pub contains-numbered_names :
    (prefix name : List ℕ) (first count : ℕ)
    → contains (numbered_names prefix first count) name ≡ true
    → (k : ℕ) × (k < count) × (name ≡ numbered_name prefix (first + k))
unfolding numbered_names
contains-numbered_names prefix name first zero h = cc
contains-numbered_names prefix name first (suc count) h =
    elim (Bool-cases (name == numbered_name prefix first)) [
      | inl same ↦ (
        0,
        omega arith,
        eq_of_== name (numbered_name prefix first) same
            ∙ renumbered prefix first (first + 0) (omega arith),
      )
      | inr differ ↦
          let (k, below, named) = contains-numbered_names prefix name (suc first) count (
            sym (ap (λ b. b || contains (numbered_names prefix (suc first) count) name) differ)
            ∙ h) in
          (
            suc k,
            omega arith,
            named ∙ renumbered prefix (suc first + k) (first + suc k) (omega arith),
          )
    ]

-- What holds of all the names holds of each, and conversely.
all_at :
    (p : List ℕ → Bool) (first count k : ℕ)
    → all p (numbered_names (codes "$") first count) ≡ true
    → k < count
    → p (numbered_name (codes "$") (first + k)) ≡ true
unfolding numbered_names
all_at p first zero k h below = absurd (omega (arith, below))
all_at p first (suc count) zero h below =
    ap p (renumbered (codes "$") (first + 0) first (omega arith)) ∙ (and_parts _ _ h).0
all_at p first (suc count) (suc k) h below =
    ap p (renumbered (codes "$") (first + suc k) (suc first + k) (omega arith))
    ∙ all_at p (suc first) count k (and_parts _ _ h).1 (omega (arith, below))

both : (a b : Bool) → a ≡ true → b ≡ true → (a && b) ≡ true
both a b p q = cc (p, q)

all_of :
    (p : List ℕ → Bool) (first count : ℕ)
    → ((k : ℕ) → k < count → p (numbered_name (codes "$") (first + k)) ≡ true)
    → all p (numbered_names (codes "$") first count) ≡ true
unfolding numbered_names
all_of p first zero h = refl
all_of p first (suc count) h =
    both _ _ (ap p (renumbered (codes "$") first (first + 0) (omega arith)) ∙ h 0 (omega arith)) (
      all_of p (suc first) count (λ k below.
        ap p (renumbered (codes "$") (suc first + k) (first + suc k) (omega arith))
        ∙ h (suc k) (omega (arith, below))))

first_of : (a b : Bool) → a ≡ true → (a || b) ≡ true
first_of true b e = refl
first_of false b e = cc

either : (a b : Bool) → b ≡ true → (a || b) ≡ true
either true b e = refl
either false b e = e

contains-numbered_name :
    (first count k : ℕ)
    → k < count
    → contains (numbered_names (codes "$") first count) (numbered_name (codes "$") (first + k))
      ≡ true
unfolding numbered_names
contains-numbered_name first zero k below = absurd (omega (arith, below))
contains-numbered_name first (suc count) zero below =
    ap (contains (numbered_names (codes "$") first (suc count)))
      (renumbered (codes "$") (first + 0) first (omega arith))
    ∙ first_of (numbered_name (codes "$") first == numbered_name (codes "$") first) _
        (==_refl (numbered_name (codes "$") first))
contains-numbered_name first (suc count) (suc k) below = either _ _ (
    ap (contains (numbered_names (codes "$") (suc first) count))
      (renumbered (codes "$") (first + suc k) (suc first + k) (omega arith))
    ∙ contains-numbered_name (suc first) count k (omega (arith, below)))

HasEach-contains :
    (names : List (List ℕ)) (count k : ℕ)
    → HasEach names count
    → k < count
    → contains names (numbered_name (codes "$") (suc k)) ≡ true
HasEach-contains names zero k h below = absurd (omega (arith, below))
HasEach-contains names (suc count) k (last, h) below = elim (Bool-cases (ltb k count)) [
  | inl before ↦ HasEach-contains names count k h (ground arith)
  | inr at_end ↦
      let same : k ≡ count = ground arith in
      ap (contains names) (renumbered (codes "$") (suc k) (suc count) (ap suc same)) ∙ last
]

contains-HasEach :
    (names : List (List ℕ)) (count : ℕ)
    → ((k : ℕ) → k < count → contains names (numbered_name (codes "$") (suc k)) ≡ true)
    → HasEach names count
contains-HasEach names zero h = tt
contains-HasEach names (suc count) h =
    (h count (omega arith), contains-HasEach names count (λ k below. h k (omega (arith, below))))

all-IsPlaceholder :
    (names : List (List ℕ)) (count : ℕ)
    → (all (contains (numbered_names (codes "$") 1 count)) names ≡ true)
      ↔ All (IsPlaceholder count) names
all-IsPlaceholder [] count = (λ e. tt, λ h. refl)
all-IsPlaceholder (name ∷ names) count = (
  (λ e.
      let (here, rest) = and_parts (contains (numbered_names (codes "$") 1 count) name) _ e in
      let (k, below, named) = contains-numbered_names (codes "$") name 1 count here in
      (
        (k, below, named ∙ renumbered (codes "$") (1 + k) (suc k) (omega arith)),
        (all-IsPlaceholder names count).0 rest,
      )),
  λ ((k, below, named), rest).
      both _ _
        (ap (contains (numbered_names (codes "$") 1 count))
            (named ∙ renumbered (codes "$") (suc k) (1 + k) (omega arith))
          ∙ contains-numbered_name 1 count k below)
        ((all-IsPlaceholder names count).1 rest),
)

-- The test for numbered placeholders holds exactly where the fields are named $1 to $n, in any order,
-- for n values.
pub is_numbered-Placeholders :
    {X T M : Type 0} (schema : Schema T M) (values : List (Value X))
    → (is_numbered schema values ≡ true)
      ↔ Placeholders (map (λ f. f.name) schema.fields) (length values)
unfolding is_numbered same_set
is_numbered-Placeholders schema values = (
  (λ e.
      let (named, each) =
        and_parts
          (all (contains (numbered_names (codes "$") 1 (length values)))
            (map (λ f. f.name) schema.fields))
          _ e in
      (
        (all-IsPlaceholder _ (length values)).0 named,
        contains-HasEach (map (λ f. f.name) schema.fields) (length values) (λ k below.
            ap (contains (map (λ f. f.name) schema.fields))
              (renumbered (codes "$") (suc k) (1 + k) (omega arith))
            ∙ all_at (contains (map (λ f. f.name) schema.fields)) 1 (length values) k each below),
      )),
  λ (named, each). both _ _ ((all-IsPlaceholder _ (length values)).1 named) (
      all_of (contains (map (λ f. f.name) schema.fields)) 1 (length values) (λ k below.
        ap (contains (map (λ f. f.name) schema.fields))
          (renumbered (codes "$") (1 + k) (suc k) (omega arith))
        ∙ HasEach-contains (map (λ f. f.name) schema.fields) (length values) k each below)),
)
