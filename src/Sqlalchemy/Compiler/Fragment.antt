-- ===== src/Sqlalchemy/Compiler/Fragment.antt =====
-- flightsql/sqlalchemy.py, RawSQLFragmentCompiler: which raw fragments are refused.
use flightsql_dbapi.Prelude.{
  or_cases, ℕ, ◌≡◌, ◌≢◌, ◌↔◌, refl, sym, ap, ◌∙◌, inl, inr, Bool, true, false, ◌||◌, [], ◌∷◌, ◌++◌,
  eqb, eq_of_eqb, Bool-cases, and_parts, if-true, if-false, All,
}
use flightsql_dbapi.Prelude.Text.{codes, starts_with}
use flightsql_dbapi.Errors.{ok}
use flightsql_dbapi.Sqlalchemy.Url.{Text}
use flightsql_dbapi.Sqlalchemy.Compiler.{closes_name, opens_name, has_pyformat, check_raw_fragment}

abbrev pub NotParen : ℕ → Type 0
NotParen c = eqb c b')' ≡ false

-- `%(name)s` in a text, with a name that is not empty and has no closing parenthesis.
abbrev pub HoldsPyformat : Text → Type 0
HoldsPyformat text =
    (before : Text) × (first : ℕ) × (rest : Text) × (after : Text) × All NotParen (first ∷ rest)
    × (text ≡ before ++ (codes "%(" ++ ((first ∷ rest) ++ (codes ")s" ++ after))))

abbrev Closes : Text → Type 0
Closes s = (rest : Text) × (after : Text) × All NotParen rest × (s ≡ rest ++ (codes ")s" ++ after))

true_or : (a b : Bool) → a ≡ true → (a || b) ≡ true
true_or true b e = refl
true_or false b e = cc

or_true : (a b : Bool) → b ≡ true → (a || b) ≡ true
or_true true b e = refl
or_true false b e = e

starts_with-s : (s : Text) → starts_with s (codes "s") ≡ true → (after : Text) × (s ≡ b's' ∷ after)
unfolding starts_with
starts_with-s [] e = cc
starts_with-s (c ∷ s) e = (s, ap (λ d. d ∷ s) (eq_of_eqb c b's' (and_parts _ _ e).0))

closes_name-Closes : (s : Text) → closes_name true s ≡ true → Closes s
unfolding closes_name
closes_name-Closes [] e = cc
closes_name-Closes (c ∷ s) e = elim (Bool-cases (eqb c b')')) [
  | inl close ↦
      let (after, is) = starts_with-s s (sym (if-true (eqb c b')') _ _ close) ∙ e) in
      ([], after, tt, ap (λ d. d ∷ s) (eq_of_eqb c b')' close) ∙ ap (λ t. b')' ∷ t) is)
  | inr inside ↦
      let (rest, after, names, is) =
        closes_name-Closes s (sym (if-false (eqb c b')') _ _ inside) ∙ e) in
      (c ∷ rest, after, (inside, names), ap (λ t. c ∷ t) is)
]

Closes-closes_name :
    (rest after : Text)
    → All NotParen rest
    → closes_name true (rest ++ (codes ")s" ++ after)) ≡ true
unfolding closes_name starts_with
Closes-closes_name [] after h = refl
Closes-closes_name (c ∷ rest) after (h, hs) =
    if-false (eqb c b')') _ _ h ∙ Closes-closes_name rest after hs

opens_name-HoldsPyformat : (text : Text) → opens_name text ≡ true → HoldsPyformat text
unfolding opens_name closes_name
opens_name-HoldsPyformat [] e = cc
opens_name-HoldsPyformat (a ∷ []) e = cc
opens_name-HoldsPyformat (a ∷ b ∷ []) e =
    let (p, q) = and_parts (eqb b b'(') false (and_parts (eqb a b'%') _ e).1 in cc
opens_name-HoldsPyformat (a ∷ b ∷ c ∷ s) e =
    let (percent, e0) = and_parts (eqb a b'%') _ e in
    let (open_paren, e1) = and_parts (eqb b b'(') _ e0 in
    elim (Bool-cases (eqb c b')')) [
      | inl close ↦ let refuted = sym (if-true (eqb c b')') _ _ close) ∙ e1 in cc
      | inr inside ↦
          let (rest, after, names, is) =
            closes_name-Closes s (sym (if-false (eqb c b')') _ _ inside) ∙ e1) in
          (
            [],
            c,
            rest,
            after,
            (inside, names),
            ap (λ d. d ∷ b ∷ c ∷ s) (eq_of_eqb a b'%' percent)
                ∙ ap (λ d. b'%' ∷ d ∷ c ∷ s) (eq_of_eqb b b'(' open_paren)
                ∙ ap (λ t. b'%' ∷ b'(' ∷ c ∷ t) is,
          )
    ]

has_pyformat-Holds : (text : Text) → has_pyformat text ≡ true → HoldsPyformat text
unfolding has_pyformat
has_pyformat-Holds [] e = cc
has_pyformat-Holds (c ∷ s) e = elim (or_cases (opens_name (c ∷ s)) (has_pyformat s) e) [
  | inl here ↦ opens_name-HoldsPyformat (c ∷ s) here
  | inr later ↦
      let (before, first, rest, after, names, is) = has_pyformat-Holds s later in
      (c ∷ before, first, rest, after, names, ap (λ t. c ∷ t) is)
]

HoldsPyformat-found :
    (before : Text) (first : ℕ) (rest after : Text)
    → All NotParen (first ∷ rest)
    → has_pyformat (before ++ (codes "%(" ++ ((first ∷ rest) ++ (codes ")s" ++ after)))) ≡ true
unfolding has_pyformat opens_name closes_name
HoldsPyformat-found [] first rest after (h, hs) =
    true_or _ _ (if-false (eqb first b')') _ _ h ∙ Closes-closes_name rest after hs)
HoldsPyformat-found (b ∷ before) first rest after h =
    or_true _ _ (HoldsPyformat-found before first rest after h)

refused : (text : Text) → check_raw_fragment true true text ≢ ok tt → has_pyformat text ≡ true
unfolding check_raw_fragment
refused text n = elim (Bool-cases (has_pyformat text)) [
  | inl found ↦ found
  | inr absent ↦ elim (n (if-false (has_pyformat text) _ _ absent)) [ ]
]

accepted : (text : Text) → has_pyformat text ≡ true → check_raw_fragment true true text ≢ ok tt
unfolding check_raw_fragment
accepted text found e = let same = sym (if-true (has_pyformat text) _ _ found) ∙ e in cc

-- The search of a raw fragment finds exactly `%(name)s`, anywhere in the text and with any name
-- that is not empty and has no closing parenthesis: such a fragment is refused by SQLAlchemy 2 with
-- positional parameters, and every other is accepted, as all are elsewhere.
pub check_raw_fragment-HoldsPyformat :
    (is_two positional : Bool) (text : Text)
    → (check_raw_fragment is_two positional text ≢ ok tt)
      ↔ ((is_two ≡ true) × (positional ≡ true) × HoldsPyformat text)
unfolding check_raw_fragment
check_raw_fragment-HoldsPyformat false positional text = ((λ n. elim (n refl) [ ]), λ h. cc)
check_raw_fragment-HoldsPyformat true false text = ((λ n. elim (n refl) [ ]), λ h. cc)
check_raw_fragment-HoldsPyformat true true text = (
  (λ n. (refl, refl, has_pyformat-Holds text (refused text n))),
  λ (u, v, (before, first, rest, after, names, is)) e.
      elim (accepted text (ap has_pyformat is ∙ HoldsPyformat-found before first rest after names)
        e) [ ],
)
