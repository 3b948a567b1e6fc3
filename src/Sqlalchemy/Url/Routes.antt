-- ===== src/Sqlalchemy/Url/Routes.antt =====
-- flightsql/sqlalchemy.py, client_from_url: where each query parameter goes.
use flightsql_dbapi.Prelude.{
  ◌≡◌, refl, sym, ap, ◌∙◌, subst, inl, inr, Bool, true, false, ◌&&◌, ◌||◌, Option, none, some, List,
  [], ◌∷◌, ◌++◌, ◌==◌, ==_refl, ==_ne, eq_of_==, contains, nat_eq, bytes_eq, if◌then◌else◌, length,
  drop, drop-length-append, Bool-cases, arith, if-true, if-false,
}
use mathlib.Core.Bool.{false≢true}
use flightsql_dbapi.Prelude.Dict.{Dict, lookup, lookup-insert, lookup-erase}
use flightsql_dbapi.Prelude.Text.{starts_with}
use flightsql_dbapi.Sqlalchemy.Url.{Text, feature_prefix, Split, moved, move_feature, move_features}

pub starts_with-append : (p s : Text) → starts_with (p ++ s) p ≡ true
unfolding starts_with
starts_with-append [] s = unfold starts_with in refl
starts_with-append (c ∷ p) s = ground (arith, starts_with-append p s)

append-drop_prefix : (p s : Text) → starts_with s p ≡ true → p ++ drop (length p) s ≡ s
unfolding starts_with
append-drop_prefix [] s h = refl
append-drop_prefix (c ∷ p) [] h = cc
append-drop_prefix (c ∷ p) (d ∷ s) h = ground (arith, append-drop_prefix p s)

-- A feature's name is the rest of its key.
name_of_key :
    (p key name : Text)
    → starts_with key p ≡ true
    → (name == drop (length p) key) ≡ (p ++ name == key)
name_of_key p key name h = elim (bytes_eq.dec name (drop (length p) key)) [
  | yes same ↦
      subst (λ n. (n == drop (length p) key) ≡ (p ++ n == key)) (sym same)
        (==_refl (drop (length p) key)
          ∙ sym (subst (λ k. (k == key) ≡ true) (sym (append-drop_prefix p key h)) (==_refl key)))
  | no differ ↦
      ==_ne name (drop (length p) key) differ
      ∙ sym (
          ==_ne (p ++ name) key
            (λ e. differ (sym (drop-length-append p name) ∙ ap (drop (length p)) e)))
]

if_absent : (b : Bool) (o : Option Text) → (b ≡ true → o ≡ none) → o ≡ (if b then none else o)
if_absent true o h = h refl
if_absent false o h = refl

if_same : (b : Bool) (o : Option Text) → o ≡ (if b then o else o)
if_same true o = refl
if_same false o = refl

lookup_metadata-moved :
    (j key : Text) (o : Option Text) (features metadata : Dict Text Text)
    → lookup key metadata ≡ o
    → lookup j (moved key o (features, metadata)).1 ≡ (if j == key then none else lookup j metadata)
lookup_metadata-moved j key none features metadata h =
    if_absent (j == key) (lookup j metadata)
      (λ same. subst (λ k. lookup k metadata ≡ none) (sym (eq_of_== j key same)) h)
lookup_metadata-moved j key (some v) features metadata h = lookup-erase j key metadata

abbrev pub first_of : Option Text → Option Text → Option Text
first_of none o = o
first_of (some v) o = some v

lookup_features-moved :
    (name key : Text) (o : Option Text) (features metadata : Dict Text Text)
    → lookup name (moved key o (features, metadata)).0 ≡ (
        if name == drop (length feature_prefix) key
        then first_of o (lookup name features)
        else lookup name features)
lookup_features-moved name key none features metadata =
    if_same (name == drop (length feature_prefix) key) (lookup name features)
lookup_features-moved name key (some v) features metadata =
    lookup-insert name (drop (length feature_prefix) key) v features

move_feature_prefixed :
    (key : Text) (s : Split)
    → starts_with key feature_prefix ≡ true
    → move_feature key s ≡ moved key (lookup key s.1) s
unfolding move_feature
move_feature_prefixed key s h =
    if-true (starts_with key feature_prefix) (moved key (lookup key s.1) s) s h

move_feature_other :
    (key : Text) (s : Split) → starts_with key feature_prefix ≡ false → move_feature key s ≡ s
unfolding move_feature
move_feature_other key s h =
    if-false (starts_with key feature_prefix) (moved key (lookup key s.1) s) s h

lookup_metadata-move_feature :
    (j key : Text) (s : Split)
    → lookup j (move_feature key s).1
      ≡ (if starts_with key feature_prefix && j == key then none else lookup j s.1)
lookup_metadata-move_feature j key s = elim (Bool-cases (starts_with key feature_prefix)) [
  | inl h ↦
      ap (λ t. lookup j t.1) (move_feature_prefixed key s h)
      ∙ lookup_metadata-moved j key (lookup key s.1) s.0 s.1 refl
      ∙ ap (λ b. if b && j == key then none else lookup j s.1) (sym h)
  | inr h ↦
      ap (λ t. lookup j t.1) (move_feature_other key s h)
      ∙ ap (λ b. if b && j == key then none else lookup j s.1) (sym h)
]

-- A key without the prefix is no feature's.
pub other_key :
    (name key : Text)
    → starts_with key feature_prefix ≡ false
    → (feature_prefix ++ name == key) ≡ false
other_key name key h = ==_ne (feature_prefix ++ name) key (λ e. false≢true (
    sym h
    ∙ ap (λ k. starts_with k feature_prefix) (sym e)
    ∙ starts_with-append feature_prefix name))

lookup_features-move_feature :
    (name key : Text) (s : Split)
    → lookup name (move_feature key s).0 ≡ (
        if feature_prefix ++ name == key
        then first_of (lookup key s.1) (lookup name s.0)
        else lookup name s.0)
lookup_features-move_feature name key s = elim (Bool-cases (starts_with key feature_prefix)) [
  | inl h ↦
      ap (λ t. lookup name t.0) (move_feature_prefixed key s h)
      ∙ lookup_features-moved name key (lookup key s.1) s.0 s.1
      ∙ ap (λ b. if b then first_of (lookup key s.1) (lookup name s.0) else lookup name s.0)
          (name_of_key feature_prefix key name h)
  | inr h ↦
      ap (λ t. lookup name t.0) (move_feature_other key s h)
      ∙ ap (λ b. if b then first_of (lookup key s.1) (lookup name s.0) else lookup name s.0)
          (sym (other_key name key h))
]

and_false : (b : Bool) → (b && false) ≡ false
and_false true = refl
and_false false = refl

if_false_last : (b : Bool) (o : Option Text) → (if b && false then none else o) ≡ o
if_false_last true o = refl
if_false_last false o = refl

same_prefix :
    (j key : Text)
    → (starts_with key feature_prefix && j == key) ≡ (starts_with j feature_prefix && j == key)
same_prefix j key = elim (Bool-cases (j == key)) [
  | inl h ↦ ap (λ k. starts_with k feature_prefix && j == key) (sym (eq_of_== j key h))
  | inr h ↦
      ap (λ b. starts_with key feature_prefix && b) h
      ∙ and_false (starts_with key feature_prefix)
      ∙ sym (and_false (starts_with j feature_prefix))
      ∙ ap (λ b. starts_with j feature_prefix && b) (sym h)
]

if_congr :
    (b : Bool) (x y z : Option Text)
    → (b ≡ true → x ≡ y)
    → (if b then x else z) ≡ (if b then y else z)
if_congr true x y z h = h refl
if_congr false x y z h = refl

erased_twice :
    (p e c : Bool) (o : Option Text)
    → (if p && c then none else (if p && e then none else o)) ≡ (if p && (e || c) then none else o)
erased_twice true true true o = refl
erased_twice true true false o = refl
erased_twice true false c o = refl
erased_twice false e c o = refl

moved_twice :
    (e c : Bool) (m o : Option Text)
    → (if c
        then first_of (if e then none else m) (if e then first_of m o else o)
        else if e
        then first_of m o
        else o)
      ≡ (if e || c then first_of m o else o)
moved_twice true true m o = refl
moved_twice true false m o = refl
moved_twice false c m o = refl

pub lookup_metadata-move_features :
    (j : Text) (ks : List Text) (s : Split)
    → lookup j (move_features ks s).1
      ≡ (if starts_with j feature_prefix && contains ks j then none else lookup j s.1)
unfolding move_features
lookup_metadata-move_features j [] s =
    sym (if_false_last (starts_with j feature_prefix) (lookup j s.1))
lookup_metadata-move_features j (key ∷ ks) s =
    lookup_metadata-move_features j ks (move_feature key s)
    ∙ ap (λ o. if starts_with j feature_prefix && contains ks j then none else o)
        (lookup_metadata-move_feature j key s
          ∙ ap (λ b. if b then none else lookup j s.1) (same_prefix j key))
    ∙ erased_twice (starts_with j feature_prefix) (j == key) (contains ks j) (lookup j s.1)

pub lookup_features-move_features :
    (name : Text) (ks : List Text) (s : Split)
    → lookup name (move_features ks s).0 ≡ (
        if contains ks (feature_prefix ++ name)
        then first_of (lookup (feature_prefix ++ name) s.1) (lookup name s.0)
        else lookup name s.0)
unfolding move_features
lookup_features-move_features name [] s = refl
lookup_features-move_features name (key ∷ ks) s =
    lookup_features-move_features name ks (move_feature key s)
    ∙ (λ i.
        if contains ks (feature_prefix ++ name)
        then first_of (after_metadata i) (after_features i)
        else after_features i)
    ∙ moved_twice (feature_prefix ++ name == key) (contains ks (feature_prefix ++ name))
        (lookup (feature_prefix ++ name) s.1) (lookup name s.0)
  where
    after_metadata :
        lookup (feature_prefix ++ name) (move_feature key s).1
        ≡ (if feature_prefix ++ name == key then none else lookup (feature_prefix ++ name) s.1)
    after_metadata =
        lookup_metadata-move_feature (feature_prefix ++ name) key s
        ∙ ap (λ b. if b then none else lookup (feature_prefix ++ name) s.1)
            (same_prefix (feature_prefix ++ name) key
              ∙ ap (λ b. b && feature_prefix ++ name == key)
                  (starts_with-append feature_prefix name))

    after_features : lookup name (move_feature key s).0 ≡ (
        if feature_prefix ++ name == key
        then first_of (lookup (feature_prefix ++ name) s.1) (lookup name s.0)
        else lookup name s.0)
    after_features =
        lookup_features-move_feature name key s
        ∙ if_congr (feature_prefix ++ name == key) (first_of (lookup key s.1) (lookup name s.0))
            (first_of (lookup (feature_prefix ++ name) s.1) (lookup name s.0)) (lookup name s.0)
            (λ same.
              ap (λ k. first_of (lookup k s.1) (lookup name s.0))
                (sym (eq_of_== (feature_prefix ++ name) key same)))
