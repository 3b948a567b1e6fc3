-- ===== src/Sqlalchemy/Reflection/Laws.antt =====
-- flightsql/sqlalchemy.py: sequences of reflection calls on one cache.
use flightsql_dbapi.Prelude.{
  ◌≡◌, refl, sym, ◌∙◌, inl, inr, true, Option, none, some, List, [], ◌∷◌, String, string_eq,
  option_eq, Option-cases,
}
use flightsql_dbapi.Prelude.Dict.{lookup}
use flightsql_dbapi.Errors.{Result, ok, raised}
use flightsql_dbapi.Effects.{continue, lift}
use flightsql_dbapi.Sqlalchemy.Reflection.{
  Entry, Adapter, InfoCache, Relations, Reflection, store_entry, relations_in, with_relations,
  store_relations, entry_in, columns_from_entry,
}
use flightsql_dbapi.Sqlalchemy.Reflection.Methods.{
  probe_table_columns, probe_and_store, relation_names_uncached, relation_names, get_table_names,
  get_view_names, has_table, get_columns,
}
use flightsql_dbapi.Sqlalchemy.Reflection.Entries.{present, AllPresent}
use flightsql_dbapi.Sqlalchemy.Reflection.Coherence.{
  cached_relations, is_cached, Coherent, All-lookup, Coherent-with_relations, Coherent-Frame,
  AllPresent-transport, Coherent-with_entry, is_cached-with_relations, is_cached-with_entry,
}
use flightsql_dbapi.Sqlalchemy.Reflection.Uncached.{Kept, relation_names_uncached-Kept}

-- One call of a reflection method.
pub data Call : Type 0 where
  tables views : Option String → Call
  table columns_of : String → Option String → Call

relations_in-lookup :
    {C : Type 0} (o : Option (InfoCache C)) (schema : Option String)
    → relations_in o schema ≡ lookup schema (cached_relations o)
unfolding relations_in lookup
relations_in-lookup none schema = refl
relations_in-lookup (some cache) schema = refl

present-with_relations :
    {C : Type 0} (o : Option (InfoCache C)) (schema s : Option String) (rel : Relations)
    (n : String)
    → present (with_relations schema rel o) s n ≡ present o s n
unfolding with_relations entry_in
present-with_relations none schema s rel n = refl
present-with_relations (some cache) schema s rel n = refl

module _ {W C : Type 0} where
  -- There is a cache, and every name on its lists is cached as a table that exists.
  abbrev pub Sound : Reflection C × W → Type 0
  Sound s = (is_cached s.0.info_cache ≡ true) × Coherent s.0.info_cache

  abbrev pub Listed : Option String → Result Relations × (Reflection C × W) → Type 0
  Listed schema (ok rel, s) = Sound s × AllPresent s.0.info_cache schema rel.0
  Listed schema (raised e, s) = Sound s

  store-Listed :
      (schema : Option String) (o : Option (InfoCache C))
      (x : Result Relations × (Reflection C × W))
      → is_cached o ≡ true
      → Coherent o
      → relations_in o schema ≡ none
      → Kept (λ (rel : Relations). rel.0) o schema x
      → Listed schema (continue x (λ found s. (ok found, (store_relations schema found s.0, s.1))))
  store-Listed schema o (raised e, (r, w)) c h absent (same, cached, f) = (
    cached ∙ c,
    Coherent-Frame schema o r.info_cache h (sym (relations_in-lookup o schema) ∙ absent)
        (same, cached, f),
  )
  store-Listed schema o (ok (names, types), (r, w)) c h absent ((same, cached, f), a) =
      unfold store_relations in
      (
        (
          is_cached-with_relations schema (names, types) r.info_cache ∙ cached ∙ c,
          Coherent-with_relations schema names types o r.info_cache h
              (sym (relations_in-lookup o schema) ∙ absent) (same, cached, f) a,
        ),
        AllPresent-transport r.info_cache (with_relations schema (names, types) r.info_cache) schema
            names (λ n p. present-with_relations r.info_cache schema schema (names, types) n ∙ p) a,
      )

module _ {W C : Type 0} (adapter : Adapter W C) where
  pub relation_names-Listed :
      (schema : Option String) (r : Reflection C) (w : W)
      → Sound (r, w)
      → Listed schema (relation_names adapter schema (r, w))
  unfolding relation_names
  relation_names-Listed schema r w (cached, h) =
      elim (Option-cases (relations_in r.info_cache schema)) [
        | inl absent ↦ rw absent (
            store-Listed schema r.info_cache (relation_names_uncached adapter schema (r, w)) cached
              h absent (relation_names_uncached-Kept adapter schema r w))
        | inr (rel, found) ↦ rw found (
          (cached, h),
          All-lookup (λ (p : Option String × Relations). AllPresent r.info_cache p.0 p.1.0) schema
              rel (cached_relations r.info_cache) h
              (sym (relations_in-lookup r.info_cache schema) ∙ found),
        )
      ]

  after-Sound :
      {A : Type 0} (schema : Option String) (f : Relations → A)
      (x : Result Relations × (Reflection C × W))
      → Listed schema x
      → Sound (continue x (λ rel s. (ok (f rel), s))).1
  after-Sound schema f (ok rel, s) (h, a) = h
  after-Sound schema f (raised e, s) h = h

  probe_and_store-Sound :
      (name : String) (schema : Option String) (r : Reflection C) (w : W)
      → Sound (r, w)
      → entry_in r.info_cache schema name ≡ none
      → Sound
          (continue
            (probe_and_store adapter schema name (r, w))
            (λ entry. lift (columns_from_entry entry name schema))).1
  unfolding probe_and_store
  probe_and_store-Sound name schema r w (cached, h) absent =
      step (probe_table_columns adapter name schema w)
    where
      step :
          (x : Result (Entry C) × W)
          → Sound
              (continue
                (continue {S = Reflection C × W}
                  (x.0, (r, x.1))
                  (λ entry s. (ok entry, (store_entry schema name entry s.0, s.1))))
                (λ entry. lift (columns_from_entry entry name schema))).1
      step (ok entry, w') =
          unfold store_entry in
          (
            is_cached-with_entry schema name entry r.info_cache ∙ cached,
            Coherent-with_entry schema name entry r.info_cache absent h,
          )
      step (raised e, w') = (cached, h)

  get_columns-Sound :
      (name : String) (schema : Option String) (r : Reflection C) (w : W)
      → Sound (r, w)
      → Sound (get_columns adapter name schema (r, w)).1
  unfolding get_columns
  get_columns-Sound name schema r w h = elim (Option-cases (entry_in r.info_cache schema name)) [
    | inl absent ↦ rw absent (probe_and_store-Sound name schema r w h absent)
    | inr (entry, found) ↦ rw found h
  ]

  -- The state after a call, whether it returned or raised.
  abbrev pub after : Call → Reflection C × W → Reflection C × W
  after (tables schema) s = (get_table_names adapter schema s).1
  after (views schema) s = (get_view_names adapter schema s).1
  after (table name schema) s = (has_table adapter name schema s).1
  after (columns_of name schema) s = (get_columns adapter name schema s).1

  abbrev pub afters : List Call → Reflection C × W → Reflection C × W
  afters [] s = s
  afters (c ∷ cs) s = afters cs (after c s)

  after-Sound_call : (c : Call) (s : Reflection C × W) → Sound s → Sound (after c s)
  unfolding get_table_names get_view_names has_table
  after-Sound_call (tables schema) (r, w) h =
      after-Sound schema _ (relation_names adapter schema (r, w))
        (relation_names-Listed schema r w h)
  after-Sound_call (views schema) (r, w) h =
      after-Sound schema _ (relation_names adapter schema (r, w))
        (relation_names-Listed schema r w h)
  after-Sound_call (table name schema) (r, w) h =
      after-Sound schema _ (relation_names adapter schema (r, w))
        (relation_names-Listed schema r w h)
  after-Sound_call (columns_of name schema) (r, w) h = get_columns-Sound name schema r w h

  pub afters-Sound : (cs : List Call) (s : Reflection C × W) → Sound s → Sound (afters cs s)
  afters-Sound [] s h = h
  afters-Sound (c ∷ cs) s h = afters-Sound cs (after c s) (after-Sound_call c s h)

  abbrev pub fresh : Reflection C
  fresh = record {
    info_cache = some (record { relations = []; entries = [] });
    warned = [];
    warnings = [];
  }

  -- From an empty cache, after any reflection calls, whatever the server answers or raises: every
  -- name on a cached list of names has a cached entry, and that is not the entry of a missing table.
  pub afters-Coherent : (cs : List Call) (w : W) → Coherent (afters cs (fresh, w)).0.info_cache
  afters-Coherent cs w = (afters-Sound cs (fresh, w) (refl, tt)).1
