-- ===== src/Sqlalchemy/Reflection/Uncached.antt =====
-- flightsql/sqlalchemy.py, _relation_names_uncached: what it leaves in the cache, whether it
-- returns or raises.
use flightsql_dbapi.Prelude.{
  and_parts, ℕ, ◌≡◌, refl, sym, subst, inl, inr, Bool, true, false, not, ◌&&◌, ◌||◌, Option, List,
  [], ◌∷◌, String, string_eq, Bool-cases, length, arith,
}
use flightsql_dbapi.Prelude.Dict.{Dict}
use flightsql_dbapi.Prelude.Distinct.{distinct, Distinct, distinct-Distinct}
use flightsql_dbapi.Errors.{Result, ok, raised}
use flightsql_dbapi.Effects.{continue}
use flightsql_dbapi.Dbapi.Tables.{TableMetadataResult}
use flightsql_dbapi.Dbapi.Tables.Request.{is_empty}
use flightsql_dbapi.Sqlalchemy.Reflection.{
  Entry, Adapter, InfoCache, Relations, Reflection, or_empty_dict, is_known, with_entry,
  store_entry, store_columns, warn_degraded,
}
use flightsql_dbapi.Sqlalchemy.Reflection.Methods.{
  Tally, tally_entry, probe_table_columns, probe_and_store, probe_all, unresolved_names,
  resolved_names, probe_unresolved, warn_if, relations_of, metadata_result, relation_names_uncached,
}
use flightsql_dbapi.Sqlalchemy.Reflection.Entries.{AllPresent}
use flightsql_dbapi.Sqlalchemy.Reflection.Coherence.{
  Frame, Frame-refl, Frame-trans, Frame-with_entry,
}
use flightsql_dbapi.Sqlalchemy.Reflection.Probes.{
  Apart, tally_entry-Apart, tally_entry-AllPresent, known-AllPresent, all_known-AllPresent,
  store_columns-Frame, select-Distinct, select-Apart,
}

info_cache-warn_if :
    {C : Type 0} (b : Bool) (schema : Option String) (n : ℕ) (t : Tally) (r : Reflection C)
    → (warn_if b schema n t r).info_cache ≡ r.info_cache
unfolding warn_degraded
info_cache-warn_if false schema n t r = refl
info_cache-warn_if true schema n t r = ground arith

module _ {W C : Type 0} where
  -- Against the cache before: other schemas keep their entries, and the names that a return gives
  -- are cached as tables that exist.
  abbrev pub Kept :
      {A : Type 0}
      → (A → List String)
      → Option (InfoCache C)
      → Option String
      → Result A × (Reflection C × W)
      → Type 0
  Kept names o schema (ok a, (r, w)) =
      Frame schema o r.info_cache × AllPresent r.info_cache schema (names a)
  Kept names o schema (raised e, (r, w)) = Frame schema o r.info_cache

  Kept-Frame :
      {A : Type 0} (names : A → List String) (o o' : Option (InfoCache C)) (schema : Option String)
      (x : Result A × (Reflection C × W))
      → Frame schema o o'
      → Kept names o' schema x
      → Kept names o schema x
  Kept-Frame names o o' schema (ok a, (r, w)) f (g, h) =
      (Frame-trans schema o o' r.info_cache f g, h)
  Kept-Frame names o o' schema (raised e, (r, w)) f g = Frame-trans schema o o' r.info_cache f g

module _ {W C : Type 0} (adapter : Adapter W C) where
  probe_all-Kept :
      (schema : Option String) (names : List String) (t : Tally) (r : Reflection C) (w : W)
      → Distinct names
      → Apart t.names names
      → AllPresent r.info_cache schema t.names
      → Kept Tally.names r.info_cache schema (probe_all adapter schema names t (r, w))
  unfolding probe_all probe_and_store
  probe_all-Kept schema [] t r w d a h = (Frame-refl schema r.info_cache, h)
  probe_all-Kept schema (name ∷ names) t r w (fresh, d) (apart, a) h =
      step (probe_table_columns adapter name schema w) (λ entry w'.
        Kept-Frame Tally.names r.info_cache (with_entry schema name entry r.info_cache) schema
          (probe_all adapter schema names (tally_entry name entry t)
            (store_entry schema name entry r, w'))
          (Frame-with_entry schema name entry r.info_cache)
          (unfold store_entry in
            probe_all-Kept schema names (tally_entry name entry t) (store_entry schema name entry r)
              w' d (tally_entry-Apart name entry t names fresh a)
              (tally_entry-AllPresent schema name entry t r.info_cache apart h)))
    where
      step :
          (x : Result (Entry C) × W)
          → ((entry : Entry C) (w' : W)
              → Kept Tally.names r.info_cache schema (
                  probe_all adapter schema names
                    (tally_entry name entry t)
                    (store_entry schema name entry r, w')))
          → Kept Tally.names r.info_cache schema (
              continue
                (continue {S = Reflection C × W}
                  (x.0, (r, x.1))
                  (λ entry s. (ok entry, (store_entry schema name entry s.0, s.1))))
                (λ entry. probe_all adapter schema names (tally_entry name entry t)))
      step (ok entry, w') f = f entry w'
      step (raised e, w') f = Frame-refl schema r.info_cache

  -- What the loop is given, and what becomes of its result.
  probe_unresolved-Kept :
      (schema : Option String) (found : TableMetadataResult C) (r : Reflection C) (w : W)
      → AllPresent r.info_cache schema (resolved_names found)
      → Kept
          (λ (rel : Relations). rel.0)
          r.info_cache
          schema
          (probe_unresolved adapter schema found (r, w))
  unfolding probe_unresolved
  probe_unresolved-Kept schema found r w h =
      finish (probe_all adapter schema (unresolved_names found) start (r, w)) (
        probe_all-Kept schema (unresolved_names found) start r w
          (unfold unresolved_names in
            select-Distinct (λ name. not (is_known (or_empty_dict found.columns_by_name) name))
              (distinct found.table_names) (distinct-Distinct found.table_names))
          (unfold unresolved_names resolved_names in
            select-Apart (is_known (or_empty_dict found.columns_by_name))
              (distinct found.table_names) (distinct found.table_names))
          h)
    where
      start : Tally
      start = record {
        names = resolved_names found;
        recovered = 0;
        unreflectable_count = 0;
        stale = 0;
      }

      degraded : Bool
      degraded =
          not (is_empty found.table_names)
          && (not (is_empty (unresolved_names found)) || not found.included_schema_supported)

      finish :
          (x : Result Tally × (Reflection C × W))
          → Kept Tally.names r.info_cache schema x
          → Kept
              (λ (rel : Relations). rel.0)
              r.info_cache
              schema
              (continue x (λ t s. (
                ok (t.names, or_empty_dict found.table_types),
                (warn_if degraded schema (length (unresolved_names found)) t s.0, s.1),
              )))
      finish (ok t, (r', w')) (f, a) =
          subst
            (λ (o : Option (InfoCache C)).
              Frame schema r.info_cache o × AllPresent o schema t.names)
            (sym (info_cache-warn_if degraded schema (length (unresolved_names found)) t r')) (f, a)
      finish (raised e, (r', w')) f = f

  relations_of-Kept :
      (schema : Option String) (found : TableMetadataResult C) (r : Reflection C) (w : W)
      → Kept
          (λ (rel : Relations). rel.0)
          r.info_cache
          schema
          (relations_of adapter schema found (r, w))
  unfolding relations_of
  relations_of-Kept schema found r w =
      elim (Bool-cases (is_empty (unresolved_names found) && found.included_schema_supported)) [
        | inl complete ↦ rw complete (
          known,
          all_known-AllPresent schema dict r (distinct found.table_names) (
              unfold unresolved_names in
              (and_parts (is_empty (unresolved_names found)) found.included_schema_supported
                complete).0),
        )
        | inr degraded ↦ rw degraded (
            Kept-Frame (λ (rel : Relations). rel.0) r.info_cache
              (store_columns schema dict r).info_cache schema
              (probe_unresolved adapter schema found (store_columns schema dict r, w)) known
              (probe_unresolved-Kept schema found (store_columns schema dict r) w (
                unfold resolved_names in
                known-AllPresent schema dict r (distinct found.table_names))))
      ]
    where
      dict : Dict String (List C)
      dict = or_empty_dict found.columns_by_name

      known : Frame schema r.info_cache (store_columns schema dict r).info_cache
      known = store_columns-Frame schema dict r

  -- Whether `_relation_names_uncached` returns or raises.
  pub relation_names_uncached-Kept :
      (schema : Option String) (r : Reflection C) (w : W)
      → Kept
          (λ (rel : Relations). rel.0)
          r.info_cache
          schema
          (relation_names_uncached adapter schema (r, w))
  unfolding relation_names_uncached
  relation_names_uncached-Kept schema r w =
      go (continue (adapter.get_table_metadata schema w) (metadata_result adapter schema))
    where
      go :
          (x : Result (TableMetadataResult C) × W)
          → Kept
              (λ (rel : Relations). rel.0)
              r.info_cache
              schema
              (continue {S = Reflection C × W} (x.0, (r, x.1)) (relations_of adapter schema))
      go (ok found, w') = relations_of-Kept schema found r w'
      go (raised e, w') = Frame-refl schema r.info_cache
