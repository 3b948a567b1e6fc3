-- ===== src/Sqlalchemy/Reflection/Answers.antt =====
-- flightsql/sqlalchemy.py: what the cache answers after the names of a schema were read.
use flightsql_dbapi.Prelude.{
  ◌≡◌, refl, sym, subst, ap, ◌⊎◌, inl, inr, true, Option, none, some, List, [], ◌∷◌, String, ◌==◌,
  eq_of_==, contains, string_eq, option_eq, Bool-cases, arith,
}
use flightsql_dbapi.Errors.{ok}
use flightsql_dbapi.Effects.{pure}
use flightsql_dbapi.Effects.Laws.{continue-eq-ok}
use flightsql_dbapi.Sqlalchemy.Reflection.{
  Entry, columns, missing, unreflectable, Adapter, InfoCache, Relations, Reflection, entry_in,
  columns_from_entry,
}
use flightsql_dbapi.Sqlalchemy.Reflection.Methods.{relation_names, has_table, get_columns}
use flightsql_dbapi.Sqlalchemy.Reflection.Entries.{is_there, present, AllPresent}
use flightsql_dbapi.Sqlalchemy.Reflection.Coherence.{is_cached}
use flightsql_dbapi.Sqlalchemy.Reflection.Laws.{
  Call, Listed, relation_names-Listed, afters, afters-Sound, fresh,
}

module _ {C : Type 0} where
  AllPresent-contains :
      (o : Option (InfoCache C)) (schema : Option String) (names : List String) (name : String)
      → AllPresent o schema names
      → contains names name ≡ true
      → present o schema name ≡ true
  AllPresent-contains o schema [] name h e = cc
  AllPresent-contains o schema (n ∷ names) name (first, rest) e = elim (Bool-cases (name == n)) [
    | inl same ↦
        subst (λ (k : String). present o schema k ≡ true) (sym (eq_of_== name n same)) first
    | inr differ ↦ AllPresent-contains o schema names name rest ground arith
  ]

  present-cached :
      (o : Option (InfoCache C)) (schema : Option String) (name : String)
      → is_cached o ≡ true
      → present o schema name ≡ true
      → is_there (entry_in o schema name) ≡ true
  present-cached none schema name c h = cc
  present-cached (some cache) schema name c h = h

module _ {W C : Type 0} (adapter : Adapter W C) where
  -- From the cache alone: the columns, or the error for a table whose columns cannot be read.
  abbrev pub Answered : String → Option String → Reflection C × W → Type 0
  Answered name schema s =
      ((cs : List C) × (get_columns adapter name schema s ≡ (ok cs, s)))
      ⊎ (get_columns adapter name schema s ≡ (columns_from_entry unreflectable name schema, s))

  there-Answered :
      (name : String) (schema : Option String) (r : Reflection C) (w : W) (o : Option (Entry C))
      → entry_in r.info_cache schema name ≡ o
      → is_there o ≡ true
      → Answered name schema (r, w)
  unfolding get_columns columns_from_entry
  there-Answered name schema r w none e h = cc
  there-Answered name schema r w (some missing) e h = cc
  there-Answered name schema r w (some (columns cs)) e h = inl (cs, rw e refl)
  there-Answered name schema r w (some unreflectable) e h = inr (rw e refl)

  on_list-Answered :
      (name : String) (schema : Option String) (rel : Relations) (r : Reflection C) (w : W)
      → Listed schema (ok rel, (r, w))
      → contains rel.0 name ≡ true
      → Answered name schema (r, w)
  on_list-Answered name schema rel r w ((cached, h), a) e =
      there-Answered name schema r w (entry_in r.info_cache schema name) refl (
        present-cached r.info_cache schema name cached
          (AllPresent-contains r.info_cache schema rel.0 name a e))

  -- After any reflection calls on an empty cache: where `has_table` returned true, `get_columns` of
  -- that table right after it sends nothing and changes nothing, and returns columns or raises
  -- UnreflectableTableError, never NoSuchTableError.
  pub has_table-Answered :
      (cs : List Call) (w : W) (name : String) (schema : Option String) (r' : Reflection C) (w' : W)
      → has_table adapter name schema (afters adapter cs (fresh adapter, w)) ≡ (ok true, (r', w'))
      → Answered name schema (r', w')
  unfolding has_table
  has_table-Answered cs w name schema r' w' e =
      let before : Reflection C × W = afters adapter cs (fresh adapter, w) in
      let (rel, s, named, returned) =
        continue-eq-ok (relation_names adapter schema before)
          (λ found. pure (contains found.0 name)) true (r', w') e in
      let same : s ≡ (r', w') = ap (λ x. x.1) returned in
      let listed : Listed schema (ok rel, s) =
        subst (λ x. Listed schema x) named
          (relation_names-Listed adapter schema before.0 before.1
            (afters-Sound adapter cs (fresh adapter, w) (refl, tt))) in
      on_list-Answered name schema rel r' w' (subst (λ t. Listed schema (ok rel, t)) same listed)
        (cc returned)
