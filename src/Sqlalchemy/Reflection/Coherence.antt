-- ===== src/Sqlalchemy/Reflection/Coherence.antt =====
-- flightsql/sqlalchemy.py: the cached lists of names against the cached entries.
use flightsql_dbapi.Prelude.{
  ◌≡◌, refl, sym, ap, subst, ◌∙◌, inl, inr, Bool, true, false, Option, none, some, List, [], ◌∷◌,
  String, ◌==◌, eq_of_==, string_eq, option_eq, pair_eq, All, Bool-cases,
}
use mathlib.Core.Bool.{false≢true}
use mathlib.Core.Option.{some-injective, some-ne-none}
use flightsql_dbapi.Prelude.Tests.{Eq}
use flightsql_dbapi.Prelude.Dict.{Dict, lookup, lookup-insert, lookup-cons, All-insert}
use flightsql_dbapi.Dbapi.Response.{Value}
use flightsql_dbapi.Sqlalchemy.Reflection.{
  Entry, InfoCache, Relations, entry_in, with_entry, with_relations,
}
use flightsql_dbapi.Sqlalchemy.Reflection.Entries.{
  is_there, present, present-with_entry, AllPresent,
}

pub All-lookup :
    {K V : Type 0} ⦃e : Eq K⦄ (P : K × V → Type 0) (k : K) (v : V) (d : Dict K V)
    → All P d
    → lookup k d ≡ some v
    → P (k, v)
unfolding lookup
All-lookup P k v [] h e = cc
All-lookup {K} {V} P k v ((j, w) ∷ d) (first, rest) e = elim (lookup-cons k j w d (some v) e) [
  | inl (same, found) ↦
      subst (λ (t : K × V). P t) (λ i. (sym same i, some-injective w v found i)) first
  | inr (differ, later) ↦ All-lookup P k v d rest later
]

module _ {C : Type 0} where
  abbrev pub cached_relations : Option (InfoCache C) → Dict (Option String) Relations
  cached_relations none = []
  cached_relations (some cache) = cache.relations

  -- Every name on a cached list is cached as a table that exists.
  abbrev pub Coherent : Option (InfoCache C) → Type 0
  Coherent o = All (λ (p : Option String × Relations). AllPresent o p.0 p.1.0) (cached_relations o)

  abbrev pub is_cached : Option (InfoCache C) → Bool
  is_cached none = false
  is_cached (some cache) = true

  -- Only the entries of one schema may differ.
  abbrev pub Frame : Option String → Option (InfoCache C) → Option (InfoCache C) → Type 0
  Frame schema o o' =
      (cached_relations o' ≡ cached_relations o)
      × (is_cached o' ≡ is_cached o)
      × ((s : Option String) (n : String) → (s ≡ schema → ⊥) → present o' s n ≡ present o s n)

  pub Frame-refl : (schema : Option String) (o : Option (InfoCache C)) → Frame schema o o
  Frame-refl schema o = (refl, refl, λ s n h. refl)

  pub Frame-trans :
      (schema : Option String) (o o' o'' : Option (InfoCache C))
      → Frame schema o o'
      → Frame schema o' o''
      → Frame schema o o''
  Frame-trans schema o o' o'' (p, c, f) (q, d, g) = (q ∙ p, d ∙ c, λ s n h. g s n h ∙ f s n h)

  cached_relations-with_entry :
      (schema : Option String) (name : String) (entry : Entry C) (o : Option (InfoCache C))
      → cached_relations (with_entry schema name entry o) ≡ cached_relations o
  unfolding with_entry
  cached_relations-with_entry schema name entry none = refl
  cached_relations-with_entry schema name entry (some cache) = refl

  pub is_cached-with_entry :
      (schema : Option String) (name : String) (entry : Entry C) (o : Option (InfoCache C))
      → is_cached (with_entry schema name entry o) ≡ is_cached o
  unfolding with_entry
  is_cached-with_entry schema name entry none = refl
  is_cached-with_entry schema name entry (some cache) = refl

  pub is_cached-with_relations :
      (schema : Option String) (rel : Relations) (o : Option (InfoCache C))
      → is_cached (with_relations schema rel o) ≡ is_cached o
  unfolding with_relations
  is_cached-with_relations schema rel none = refl
  is_cached-with_relations schema rel (some cache) = refl

  pub Frame-with_entry :
      (schema : Option String) (name : String) (entry : Entry C) (o : Option (InfoCache C))
      → Frame schema o (with_entry schema name entry o)
  Frame-with_entry schema name entry o = (
    cached_relations-with_entry schema name entry o,
    is_cached-with_entry schema name entry o,
    λ s n h. present-with_entry schema s name n entry o (λ same _. h same),
  )

  pub AllPresent-transport :
      (o o' : Option (InfoCache C)) (s : Option String) (names : List String)
      → ((n : String) → present o s n ≡ true → present o' s n ≡ true)
      → AllPresent o s names
      → AllPresent o' s names
  AllPresent-transport o o' s [] f h = tt
  AllPresent-transport o o' s (n ∷ names) f (first, rest) =
      (f n first, AllPresent-transport o o' s names f rest)

  lists-Frame :
      (schema : Option String) (o o' : Option (InfoCache C)) (d : Dict (Option String) Relations)
      → ((s : Option String) (n : String) → (s ≡ schema → ⊥) → present o' s n ≡ present o s n)
      → lookup schema d ≡ none
      → All (λ (p : Option String × Relations). AllPresent o p.0 p.1.0) d
      → All (λ (p : Option String × Relations). AllPresent o' p.0 p.1.0) d
  unfolding lookup
  lists-Frame schema o o' [] f e h = tt
  lists-Frame schema o o' ((s, rel) ∷ d) f e (first, rest) =
      elim (lookup-cons schema s rel d none e) [
        | inl (same, found) ↦ absurd (some-ne-none rel found)
        | inr (differ, later) ↦ (
          AllPresent-transport o o' s rel.0 (λ n p. f s n (λ h. differ (sym h)) ∙ p) first,
          lists-Frame schema o o' d f later rest,
        )
      ]

  -- A list of names is stored for a schema that had none, after a change of its entries only.
  pub Coherent-with_relations :
      (schema : Option String) (names : List String) (types : Dict String Value)
      (o o' : Option (InfoCache C))
      → Coherent o
      → lookup schema (cached_relations o) ≡ none
      → Frame schema o o'
      → AllPresent o' schema names
      → Coherent (with_relations schema (names, types) o')
  unfolding with_relations entry_in
  Coherent-with_relations schema names types o none h e f a = tt
  Coherent-with_relations schema names types o (some cache) h e (same, _, f) a =
      All-insert (λ (p : Option String × Relations). AllPresent (some cache) p.0 p.1.0) schema
        (names, types) cache.relations a
        (subst
          (λ (d : Dict (Option String) Relations).
            All (λ (p : Option String × Relations). AllPresent (some cache) p.0 p.1.0) d)
          (sym same) (lists-Frame schema o (some cache) (cached_relations o) f e h))

  pub Coherent-Frame :
      (schema : Option String) (o o' : Option (InfoCache C))
      → Coherent o
      → lookup schema (cached_relations o) ≡ none
      → Frame schema o o'
      → Coherent o'
  Coherent-Frame schema o o' h e (same, _, f) =
      subst
        (λ (d : Dict (Option String) Relations).
          All (λ (p : Option String × Relations). AllPresent o' p.0 p.1.0) d)
        (sym same) (lists-Frame schema o o' (cached_relations o) f e h)

  -- An entry that was absent cannot be on a list, so it may be stored.
  present-absent :
      (schema s : Option String) (name n : String) (entry : Entry C) (o : Option (InfoCache C))
      → entry_in o schema name ≡ none
      → present o s n ≡ true
      → present (with_entry schema name entry o) s n ≡ true
  unfolding with_entry entry_in
  present-absent schema s name n entry none e h = refl
  present-absent schema s name n entry (some cache) e h =
      elim (Bool-cases (◌==◌ {A = Option String × String} (s, n) (schema, name))) [
        | inl same ↦
            let p : ◌≡◌ {A = Option String × String} (s, n) (schema, name) =
              eq_of_== {A = Option String × String} (s, n) (schema, name) same in
            absurd (
              false≢true (
                sym
                  (ap is_there (ap (λ (k : Option String × String). lookup k cache.entries) p ∙ e))
                ∙ h))
        | inr differ ↦ rw (lookup-insert (s, n) (schema, name) entry cache.entries, differ) h
      ]

  lists-absent :
      (schema : Option String) (name : String) (entry : Entry C) (o : Option (InfoCache C))
      (d : Dict (Option String) Relations)
      → entry_in o schema name ≡ none
      → All (λ (p : Option String × Relations). AllPresent o p.0 p.1.0) d
      → All
          (λ (p : Option String × Relations). AllPresent (with_entry schema name entry o) p.0 p.1.0)
          d
  lists-absent schema name entry o [] e h = tt
  lists-absent schema name entry o ((s, rel) ∷ d) e (first, rest) = (
    AllPresent-transport o (with_entry schema name entry o) s rel.0
        (λ n p. present-absent schema s name n entry o e p) first,
    lists-absent schema name entry o d e rest,
  )

  pub Coherent-with_entry :
      (schema : Option String) (name : String) (entry : Entry C) (o : Option (InfoCache C))
      → entry_in o schema name ≡ none
      → Coherent o
      → Coherent (with_entry schema name entry o)
  Coherent-with_entry schema name entry o e h =
      subst
        (λ (d : Dict (Option String) Relations).
          All
            (λ (p : Option String × Relations).
              AllPresent (with_entry schema name entry o) p.0 p.1.0)
            d)
        (sym (cached_relations-with_entry schema name entry o))
        (lists-absent schema name entry o (cached_relations o) e h)
