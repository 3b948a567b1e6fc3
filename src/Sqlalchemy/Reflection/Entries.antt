-- ===== src/Sqlalchemy/Reflection/Entries.antt =====
-- flightsql/sqlalchemy.py: the entries of the reflection cache, before and after one is stored.
use flightsql_dbapi.Prelude.{
  ◌≡◌, refl, ap, ◌∙◌, Bool, true, false, ◌||◌, Option, none, some, List, [], ◌∷◌, ◌++◌, String,
  ◌==◌, ==_refl, ==_ne, contains, string_eq, option_eq, pair_eq, All, arith,
}
use flightsql_dbapi.Prelude.Dict.{lookup-insert}
use flightsql_dbapi.Sqlalchemy.Reflection.{
  Entry, columns, missing, unreflectable, InfoCache, entry_in, with_entry,
}

other-key :
    (s s' : Option String) (n n' : String)
    → (s' ≡ s → n' ≡ n → ⊥)
    → ◌==◌ {A = Option String × String} (s', n') (s, n) ≡ false
other-key s s' n n' differ =
    ==_ne {A = Option String × String} (s', n') (s, n)
      (λ p. differ (ap (λ t. t.0) p) (ap (λ t. t.1) p))

pub contains-ne :
    (n m : String) (names : List String)
    → contains (m ∷ names) n ≡ false
    → (m ≡ n → ⊥) × (contains names n ≡ false)
contains-ne n m names h = ground arith

module _ {C : Type 0} where
  abbrev pub is_present : Entry C → Bool
  is_present missing = false
  is_present (columns cs) = true
  is_present unreflectable = true

  abbrev pub is_there : Option (Entry C) → Bool
  is_there none = false
  is_there (some entry) = is_present entry

  -- The table is cached as one that exists. Without a cache there is nothing to contradict.
  abbrev pub present : Option (InfoCache C) → Option String → String → Bool
  present none schema name = true
  present (some cache) schema name = is_there (entry_in (some cache) schema name)

  pub present-with_entry :
      (s s' : Option String) (n n' : String) (entry : Entry C) (o : Option (InfoCache C))
      → (s' ≡ s → n' ≡ n → ⊥)
      → present (with_entry s n entry o) s' n' ≡ present o s' n'
  unfolding with_entry entry_in
  present-with_entry s s' n n' entry none differ = refl
  present-with_entry s s' n n' entry (some cache) differ =
      rw (lookup-insert (s', n') (s, n) entry cache.entries, other-key s s' n n' differ) refl

  pub present-with_entry_self :
      (s : Option String) (n : String) (entry : Entry C) (o : Option (InfoCache C))
      → is_present entry ≡ true
      → present (with_entry s n entry o) s n ≡ true
  unfolding with_entry entry_in
  present-with_entry_self s n entry none h = refl
  present-with_entry_self s n entry (some cache) h =
      rw
        (
          lookup-insert (s, n) (s, n) entry cache.entries,
          ==_refl {A = Option String × String} (s, n),
        )
        h

  abbrev pub AllPresent : Option (InfoCache C) → Option String → List String → Type 0
  AllPresent o schema names = All (λ (name : String). present o schema name ≡ true) names

  -- Storing an entry leaves the other names of the schema as they were.
  pub AllPresent-with_entry :
      (o : Option (InfoCache C)) (schema : Option String) (name : String) (entry : Entry C)
      (names : List String)
      → contains names name ≡ false
      → AllPresent o schema names
      → AllPresent (with_entry schema name entry o) schema names
  AllPresent-with_entry o schema name entry [] h a = tt
  AllPresent-with_entry o schema name entry (n ∷ names) h (first, rest) =
      let (differ, more) = contains-ne name n names h in
      (
        present-with_entry schema schema name n entry o (λ _ same. differ same) ∙ first,
        AllPresent-with_entry o schema name entry names more rest,
      )

  pub AllPresent-append :
      (o : Option (InfoCache C)) (schema : Option String) (xs ys : List String)
      → AllPresent o schema xs
      → AllPresent o schema ys
      → AllPresent o schema (xs ++ ys)
  AllPresent-append o schema [] ys h g = g
  AllPresent-append o schema (x ∷ xs) ys (first, rest) g =
      (first, AllPresent-append o schema xs ys rest g)

-- `contains` on lists that are put together.
pub contains-append :
    (xs ys : List String) (n : String) → contains (xs ++ ys) n ≡ (contains xs n || contains ys n)
contains-append [] ys n = refl
contains-append (x ∷ xs) ys n = ground (arith, contains-append xs ys n)
