-- ===== src/Sqlalchemy/Reflection/Partition.antt =====
-- flightsql/sqlalchemy.py: the names of tables and of views against has_table.
use flightsql_dbapi.Prelude.{
  ◌≡◌, refl, sym, ap, subst, ◌∙◌, inl, inr, Bool, true, false, not, ◌&&◌, ◌||◌, Option, none, some,
  List, [], ◌∷◌, String, ◌==◌, ==_refl, eq_of_==, contains, string_eq, option_eq, Bool-cases,
  Option-cases, if-true, arith,
}
use flightsql_dbapi.Prelude.Dict.{lookup, lookup-insert}
use flightsql_dbapi.Errors.{ok, ok_injective}
use flightsql_dbapi.Effects.{pure, continue}
use flightsql_dbapi.Effects.Laws.{continue-eq-ok}
use flightsql_dbapi.Sqlalchemy.Reflection.{
  Adapter, InfoCache, Relations, Reflection, is_view_type, select, relations_in, with_relations,
  store_relations,
}
use flightsql_dbapi.Sqlalchemy.Reflection.Methods.{
  or_relations, relation_names_uncached, relation_names, get_table_names, get_view_names, has_table,
}
use flightsql_dbapi.Sqlalchemy.Reflection.Coherence.{is_cached}
use flightsql_dbapi.Sqlalchemy.Reflection.Uncached.{Kept, relation_names_uncached-Kept}

contains-select :
    (p : String → Bool) (name : String) (names : List String)
    → contains (select p names) name ≡ (contains names name && p name)
unfolding select
contains-select p name [] = refl
contains-select p name (x ∷ names) = elim (Bool-cases (name == x)) [
  | inl same ↦ ground (arith, contains-select p name names, ap p (eq_of_== name x same))
  | inr differ ↦ ground (arith, contains-select p name names)
]

relations_in-with_relations :
    {C : Type 0} (schema : Option String) (rel : Relations) (o : Option (InfoCache C))
    → is_cached o ≡ true
    → relations_in (with_relations schema rel o) schema ≡ some rel
unfolding relations_in with_relations
relations_in-with_relations schema rel none h = cc
relations_in-with_relations schema rel (some cache) h =
    lookup-insert schema schema rel cache.relations
    ∙ if-true (schema == schema) (some rel) (lookup schema cache.relations) (==_refl schema)

split_or : (c v : Bool) → c ≡ ((c && not v) || (c && v))
split_or true true = refl
split_or true false = refl
split_or false v = refl

split_and : (c v : Bool) → ((c && not v) && (c && v)) ≡ false
split_and true true = refl
split_and true false = refl
split_and false v = refl

module _ {W C : Type 0} (adapter : Adapter W C) (schema : Option String) where
  relation_names-relations_in :
      (r r' : Reflection C) (w w' : W) (rel : Relations)
      → is_cached r.info_cache ≡ true
      → relation_names adapter schema (r, w) ≡ (ok rel, (r', w'))
      → relations_in r'.info_cache schema ≡ some rel
  unfolding relation_names store_relations
  relation_names-relations_in r r' w w' rel cached e =
      elim (Option-cases (relations_in r.info_cache schema)) [
        | inr (known, found) ↦
            let returned : (ok known, (r, w)) ≡ (ok rel, (r', w')) =
              sym (ap (λ o. or_relations adapter o schema (r, w)) found) ∙ e in
            ap (λ x. relations_in x.1.0.info_cache schema) (sym returned)
            ∙ found
            ∙ ap some (ok_injective known rel (ap (λ x. x.0) returned))
        | inl absent ↦
            let (made, (r1, w1), e1, f1) =
              continue-eq-ok (relation_names_uncached adapter schema (r, w))
                (λ found s. (ok found, (store_relations schema found s.0, s.1))) rel (r', w')
                (sym (ap (λ o. or_relations adapter o schema (r, w)) absent) ∙ e) in
            let kept : Kept (λ (rel : Relations). rel.0) r.info_cache schema (ok made, (r1, w1)) =
              subst (Kept (λ (rel : Relations). rel.0) r.info_cache schema) e1
                (relation_names_uncached-Kept adapter schema r w) in
            ap (λ x. relations_in x.1.0.info_cache schema) (sym f1)
            ∙ relations_in-with_relations schema made r1.info_cache (kept.0.1 ∙ cached)
            ∙ ap some (ok_injective made rel (ap (λ x. x.0) f1))
      ]

  relation_names-again :
      (r : Reflection C) (w : W) (rel : Relations)
      → relations_in r.info_cache schema ≡ some rel
      → relation_names adapter schema (r, w) ≡ (ok rel, (r, w))
  unfolding relation_names
  relation_names-again r w rel found = ap (λ o. or_relations adapter o schema (r, w)) found

  -- With a cache, after get_table_names returned, get_view_names and has_table send nothing and
  -- change nothing; has_table tells of a name whether it is a table's or a view's, and no name
  -- is both.
  pub get_table_names-views :
      (r r' : Reflection C) (w w' : W) (table_names : List String) (name : String)
      → is_cached r.info_cache ≡ true
      → get_table_names adapter schema (r, w) ≡ (ok table_names, (r', w'))
      → (view_names : List String) × (found : Bool) × (get_view_names adapter schema (r', w')
          ≡ (ok view_names, (r', w')))
        × (has_table adapter name schema (r', w') ≡ (ok found, (r', w')))
        × (found ≡ (contains table_names name || contains view_names name))
        × ((contains table_names name && contains view_names name) ≡ false)
  unfolding get_table_names get_view_names has_table
  get_table_names-views r r' w w' table_names name cached e =
      let (rel, (r1, w1), named, returned) =
        continue-eq-ok (relation_names adapter schema (r, w))
          (λ found. pure (select (λ n. not (is_view_type (lookup n found.1))) found.0)) table_names
          (r', w') e in
      let known : relations_in r'.info_cache schema ≡ some rel =
        ap (λ x. relations_in x.1.0.info_cache schema) (sym returned)
        ∙ relation_names-relations_in r r1 w w1 rel cached named in
      let again : relation_names adapter schema (r', w') ≡ (ok rel, (r', w')) =
        relation_names-again r' w' rel known in
      let is_view : String → Bool = λ n. is_view_type (lookup n rel.1) in
      let in_tables : contains table_names name ≡ (contains rel.0 name && not (is_view name)) =
        ap (λ ns. contains ns name) (sym (ok_injective _ table_names (ap (λ x. x.0) returned)))
        ∙ contains-select (λ n. not (is_view n)) name rel.0 in
      let in_views : contains (select is_view rel.0) name ≡ (contains rel.0 name && is_view name) =
        contains-select is_view name rel.0 in
      (
        select is_view rel.0,
        contains rel.0 name,
        ap (λ x. continue x (λ found. pure (select (λ n. is_view_type (lookup n found.1)) found.0)))
            again,
        ap (λ x. continue x (λ found. pure (contains found.0 name))) again,
        split_or (contains rel.0 name) (is_view name) ∙ sym (λ i. in_tables i || in_views i),
        (λ i. in_tables i && in_views i) ∙ split_and (contains rel.0 name) (is_view name),
      )
