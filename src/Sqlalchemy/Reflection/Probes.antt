-- ===== src/Sqlalchemy/Reflection/Probes.antt =====
-- flightsql/sqlalchemy.py, _relation_names_uncached: the names against the entries that it stores.
use flightsql_dbapi.Prelude.{
  ◌≡◌, refl, sym, subst, ◌∙◌, inl, inr, Bool, true, false, not, ◌||◌, Option, List, [], ◌∷◌, ◌++◌,
  String, ◌==◌, eq_of_==, contains, string_eq, All, Bool-cases, arith,
}
use flightsql_dbapi.Prelude.Dict.{Dict, keys}
use flightsql_dbapi.Prelude.Distinct.{Distinct}
use flightsql_dbapi.Dbapi.Tables.Request.{is_empty}
use flightsql_dbapi.Sqlalchemy.Reflection.{
  Entry, columns, missing, unreflectable, InfoCache, Reflection, select, is_known, with_entry,
  store_entry, store_columns,
}
use flightsql_dbapi.Sqlalchemy.Reflection.Methods.{Tally, tally_entry}
use flightsql_dbapi.Sqlalchemy.Reflection.Entries.{
  present, present-with_entry, present-with_entry_self, AllPresent, AllPresent-with_entry,
  AllPresent-append, contains-append, contains-ne,
}
use flightsql_dbapi.Sqlalchemy.Reflection.Coherence.{
  Frame, Frame-refl, Frame-trans, Frame-with_entry,
}

-- No name of the second list is on the first.
abbrev pub Apart : List String → List String → Type 0
Apart xs names = All (λ (name : String). contains xs name ≡ false) names

contains-select :
    (p : String → Bool) (n : String) (xs : List String)
    → contains xs n ≡ false
    → contains (select p xs) n ≡ false
unfolding select
contains-select p n [] h = refl
contains-select p n (x ∷ xs) h = ground (arith, contains-select p n xs)

pub select-Distinct : (p : String → Bool) (xs : List String) → Distinct xs → Distinct (select p xs)
unfolding select
select-Distinct p [] h = tt
select-Distinct p (x ∷ xs) (fresh, h) = elim (Bool-cases (p x)) [
  | inl yes_p ↦ rw yes_p (contains-select p x xs fresh, select-Distinct p xs h)
  | inr no_p ↦ rw no_p (select-Distinct p xs h)
]

absent_select :
    (p : String → Bool) (n : String) (xs : List String)
    → p n ≡ false
    → contains (select p xs) n ≡ false
unfolding select
absent_select p n [] h = refl
absent_select p n (x ∷ xs) h = ground (arith, absent_select p n xs h)

pub select-Apart :
    (p : String → Bool) (xs ys : List String) → Apart (select p xs) (select (λ n. not (p n)) ys)
unfolding select
select-Apart p xs [] = tt
select-Apart p xs (y ∷ ys) = elim (Bool-cases (p y)) [
  | inl yes_p ↦ rw yes_p (select-Apart p xs ys)
  | inr no_p ↦ rw no_p (absent_select p y xs no_p, select-Apart p xs ys)
]

or-true : (a b : Bool) → (a || b) ≡ true → b ≡ false → a ≡ true
or-true a b h g = ground arith

not-false : (b : Bool) → not b ≡ false → b ≡ true
not-false b h = ground arith

none_selected :
    (p : String → Bool) (n : String) (names : List String)
    → is_empty (select p (n ∷ names)) ≡ true
    → (p n ≡ false) × (is_empty (select p names) ≡ true)
unfolding select
none_selected p n names h = ground arith

pub append-Apart :
    (xs : List String) (name : String) (names : List String)
    → contains names name ≡ false
    → Apart xs names
    → Apart (xs ++ (name ∷ [])) names
append-Apart xs name [] h a = tt
append-Apart xs name (n ∷ names) h (first, rest) =
    let (differ, later) = contains-ne name n names h in
    (
      rw (contains-append xs (name ∷ []) n, first) ground arith,
      append-Apart xs name names later rest,
    )

pub tally_entry-Apart :
    {C : Type 0} (name : String) (entry : Entry C) (t : Tally) (names : List String)
    → contains names name ≡ false
    → Apart t.names names
    → Apart (tally_entry name entry t).names names
unfolding tally_entry
tally_entry-Apart name missing t names h a = a
tally_entry-Apart name (columns cs) t names h a = append-Apart t.names name names h a
tally_entry-Apart name unreflectable t names h a = append-Apart t.names name names h a

module _ {C : Type 0} where
  columns-present :
      (schema : Option String) (n m : String) (cs : List C) (o : Option (InfoCache C))
      → present o schema n ≡ true
      → present (with_entry schema m (columns cs) o) schema n ≡ true
  columns-present schema n m cs o h = elim (Bool-cases (n == m)) [
    | inl same ↦
        subst (λ (k : String). present (with_entry schema m (columns cs) o) schema k ≡ true)
          (sym (eq_of_== n m same)) (present-with_entry_self schema m (columns cs) o refl)
    | inr differ ↦ present-with_entry schema schema m n (columns cs) o (λ _ same. ground arith) ∙ h
  ]

  -- Storing columns takes no table away.
  store_columns-keeps :
      (schema : Option String) (n : String) (d : Dict String (List C)) (r : Reflection C)
      → present r.info_cache schema n ≡ true
      → present (store_columns schema d r).info_cache schema n ≡ true
  unfolding store_columns
  store_columns-keeps schema n [] r h = h
  store_columns-keeps schema n ((m, cs) ∷ d) r h =
      store_columns-keeps schema n d (store_entry schema m (columns cs) r)
        (unfold store_entry in columns-present schema n m cs r.info_cache h)

  store_columns-present :
      (schema : Option String) (n : String) (d : Dict String (List C)) (r : Reflection C)
      → contains (keys d) n ≡ true
      → present (store_columns schema d r).info_cache schema n ≡ true
  unfolding store_columns
  store_columns-present schema n [] r h = cc
  store_columns-present schema n ((m, cs) ∷ d) r h = elim (Bool-cases (contains (keys d) n)) [
    | inl later ↦ store_columns-present schema n d (store_entry schema m (columns cs) r) later
    | inr first ↦ store_columns-keeps schema n d (store_entry schema m (columns cs) r) (
        unfold store_entry in
        subst
          (λ (k : String). present (with_entry schema m (columns cs) r.info_cache) schema k ≡ true)
          (sym (eq_of_== n m (or-true (n == m) (contains (keys d) n) h first)))
          (present-with_entry_self schema m (columns cs) r.info_cache refl))
  ]

  pub store_columns-Frame :
      (schema : Option String) (d : Dict String (List C)) (r : Reflection C)
      → Frame schema r.info_cache (store_columns schema d r).info_cache
  unfolding store_columns store_entry
  store_columns-Frame schema [] r = Frame-refl schema r.info_cache
  store_columns-Frame schema ((m, cs) ∷ d) r =
      Frame-trans schema r.info_cache (with_entry schema m (columns cs) r.info_cache)
        (store_columns schema d (store_entry schema m (columns cs) r)).info_cache
        (Frame-with_entry schema m (columns cs) r.info_cache)
        (store_columns-Frame schema d (store_entry schema m (columns cs) r))

  pub known-AllPresent :
      (schema : Option String) (d : Dict String (List C)) (r : Reflection C) (names : List String)
      → AllPresent (store_columns schema d r).info_cache schema (select (is_known d) names)
  unfolding select is_known
  known-AllPresent schema d r [] = tt
  known-AllPresent schema d r (n ∷ names) = elim (Bool-cases (contains (keys d) n)) [
    | inl known ↦
        rw known (store_columns-present schema n d r known, known-AllPresent schema d r names)
    | inr unknown ↦ rw unknown (known-AllPresent schema d r names)
  ]

  pub all_known-AllPresent :
      (schema : Option String) (d : Dict String (List C)) (r : Reflection C) (names : List String)
      → is_empty (select (λ n. not (is_known d n)) names) ≡ true
      → AllPresent (store_columns schema d r).info_cache schema names
  unfolding select is_known
  all_known-AllPresent schema d r [] h = tt
  all_known-AllPresent schema d r (n ∷ names) h =
      let (known, rest) = none_selected (λ m. not (contains (keys d) m)) n names h in
      (
        store_columns-present schema n d r (not-false (contains (keys d) n) known),
        all_known-AllPresent schema d r names rest,
      )

  pub tally_entry-AllPresent :
      (schema : Option String) (name : String) (entry : Entry C) (t : Tally)
      (o : Option (InfoCache C))
      → contains t.names name ≡ false
      → AllPresent o schema t.names
      → AllPresent (with_entry schema name entry o) schema (tally_entry name entry t).names
  unfolding tally_entry
  tally_entry-AllPresent schema name missing t o fresh h =
      AllPresent-with_entry o schema name missing t.names fresh h
  tally_entry-AllPresent schema name (columns cs) t o fresh h =
      AllPresent-append (with_entry schema name (columns cs) o) schema t.names (name ∷ [])
        (AllPresent-with_entry o schema name (columns cs) t.names fresh h)
        (present-with_entry_self schema name (columns cs) o refl, tt)
  tally_entry-AllPresent schema name unreflectable t o fresh h =
      AllPresent-append (with_entry schema name unreflectable o) schema t.names (name ∷ [])
        (AllPresent-with_entry o schema name unreflectable t.names fresh h)
        (present-with_entry_self schema name unreflectable o refl, tt)
