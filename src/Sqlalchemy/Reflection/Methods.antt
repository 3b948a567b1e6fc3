-- ===== src/Sqlalchemy/Reflection/Methods.antt =====
-- flightsql/sqlalchemy.py, FlightSQLDialect: the reflection methods on the cache and the server.
use flightsql_dbapi.Prelude.{
  ℕ, ◌+◌, Bool, true, false, not, ◌&&◌, ◌||◌, Option, none, some, List, [], ◌∷◌, ◌++◌, String,
  contains, string_eq, if◌then◌else◌, length,
}
use flightsql_dbapi.Prelude.Dict.{lookup, keys}
use flightsql_dbapi.Prelude.Distinct.{distinct}
use flightsql_dbapi.Errors.{ok}
use flightsql_dbapi.Effects.{Exec, pure, raise, lift, on_world, ◌>>=◌}
use flightsql_dbapi.Dbapi.Tables.{TableMetadataResult}
use flightsql_dbapi.Dbapi.Tables.Request.{is_empty}
use flightsql_dbapi.Sqlalchemy.Reflection.{
  Entry, columns, missing, unreflectable, Metadata, result, legacy, nothing, Adapter, Relations,
  Reflection, sqlalchemy_error, is_view_type, select, or_empty_dict, is_known, entry_of,
  entry_of_columns, columns_from_entry, entry_in, store_entry, store_columns, relations_in,
  store_relations, warn_degraded,
}

-- The names, and the counts of the loop over the unresolved ones.
pub record Tally : Type 0 where
  pub names : List String
  pub recovered : ℕ
  pub unreflectable_count : ℕ
  pub stale : ℕ

-- One turn of that loop, by the entry that the probe gave.
unfoldable pub tally_entry : {C : Type 0} → String → Entry C → Tally → Tally
tally_entry name missing t = record t { stale = t.stale + 1 }
tally_entry name (columns cs) t = record t {
  names = t.names ++ (name ∷ []);
  recovered = t.recovered + 1;
}
tally_entry name unreflectable t = record t {
  names = t.names ++ (name ∷ []);
  unreflectable_count = t.unreflectable_count + 1;
}

module _ {C : Type 0} where
  abbrev bare_result : List String → TableMetadataResult C
  bare_result names = record {
    table_names = names;
    columns_by_name = none;
    included_schema_supported = false;
    table_types = none;
  }

  unfoldable pub unresolved_names : TableMetadataResult C → List String
  unfolding select is_known distinct string_eq
  unresolved_names found =
      select (λ name. not (is_known (or_empty_dict found.columns_by_name) name))
        (distinct found.table_names)

  unfoldable pub resolved_names : TableMetadataResult C → List String
  unfolding select is_known distinct string_eq
  resolved_names found =
      select (is_known (or_empty_dict found.columns_by_name)) (distinct found.table_names)

  abbrev pub warn_if : Bool → Option String → ℕ → Tally → Reflection C → Reflection C
  warn_if false schema probes t r = r
  warn_if true schema probes t r =
      warn_degraded
        (record {
          schema = schema;
          probes = probes;
          recovered = t.recovered;
          unreflectable = t.unreflectable_count;
          stale = t.stale;
        })
        r

module _ {W C : Type 0} (adapter : Adapter W C) where
  abbrev State : Type 0
  State = Reflection C × W

  abbrev probed_entry : String → Option (TableMetadataResult C) → Exec W (Entry C)
  probed_entry name none = raise (
      sqlalchemy_error "InvalidRequestError"
        "flightsql_get_table_metadata_for_table() must return TableMetadataResult")
  probed_entry name (some found) = pure (entry_of name found)

  abbrev probe_with :
      Option (String → Option String → Exec W (Option (TableMetadataResult C)))
      → String
      → Option String
      → Exec W (Entry C)
  probe_with none name schema = do
    found ← adapter.get_columns name schema
    pure (entry_of_columns found)
  probe_with (some probe) name schema = probe name schema >>= probed_entry name

  unfoldable pub probe_table_columns : String → Option String → Exec W (Entry C)
  unfolding entry_of entry_of_columns
  probe_table_columns name schema = probe_with adapter.get_table_metadata_for_table name schema

  -- A probe whose entry is kept.
  unfoldable pub probe_and_store : Option String → String → Exec (Reflection C × W) (Entry C)
  unfolding probe_table_columns store_entry
  probe_and_store schema name = do
    entry ← on_world (probe_table_columns name schema)
    λ (r, w). (ok entry, (store_entry schema name entry r, w))

  unfoldable pub probe_all : Option String → List String → Tally → Exec (Reflection C × W) Tally
  unfolding probe_and_store tally_entry
  probe_all schema [] t = pure t
  probe_all schema (name ∷ names) t = do
    entry ← probe_and_store schema name
    probe_all schema names (tally_entry name entry t)

  -- The answer in the shape of TableMetadataResult.
  unfoldable pub metadata_result : Option String → Metadata C → Exec W (TableMetadataResult C)
  metadata_result schema (result found) = pure found
  metadata_result schema nothing = do
    names ← adapter.get_table_names schema
    pure (bare_result names)
  metadata_result schema (legacy d) = pure (record {
    table_names = keys d;
    columns_by_name = some d;
    included_schema_supported = true;
    table_types = none;
  })

  -- Below the early return: the probes, the warning, and what is returned.
  unfoldable pub probe_unresolved :
      Option String → TableMetadataResult C → Exec (Reflection C × W) Relations
  unfolding probe_all unresolved_names resolved_names warn_degraded
  probe_unresolved schema found = do
    t ←
        probe_all schema (unresolved_names found) (record {
          names = resolved_names found;
          recovered = 0;
          unreflectable_count = 0;
          stale = 0;
        })
    λ (r, w). (
      ok (t.names, or_empty_dict found.table_types),
      (
        warn_if
            (not (is_empty found.table_names)
              && (not (is_empty (unresolved_names found)) || not found.included_schema_supported))
            schema (length (unresolved_names found)) t r,
        w,
      ),
    )

  unfoldable pub relations_of :
      Option String → TableMetadataResult C → Exec (Reflection C × W) Relations
  unfolding probe_unresolved unresolved_names store_columns distinct string_eq
  relations_of schema found (r, w) =
      if is_empty (unresolved_names found) && found.included_schema_supported
      then (
        ok (distinct found.table_names, or_empty_dict found.table_types),
        (store_columns schema (or_empty_dict found.columns_by_name) r, w),
      )
      else probe_unresolved schema found
          (store_columns schema (or_empty_dict found.columns_by_name) r, w)

  unfoldable pub relation_names_uncached : Option String → Exec (Reflection C × W) Relations
  unfolding metadata_result relations_of
  relation_names_uncached schema = do
    found ← on_world (adapter.get_table_metadata schema >>= metadata_result schema)
    relations_of schema found

  abbrev pub or_relations : Option Relations → Option String → Exec (Reflection C × W) Relations
  or_relations (some cached) schema = pure cached
  or_relations none schema = do
    found ← relation_names_uncached schema
    λ (r, w). (ok found, (store_relations schema found r, w))

  unfoldable pub relation_names : Option String → Exec (Reflection C × W) Relations
  unfolding relation_names_uncached relations_in store_relations
  relation_names schema (r, w) = or_relations (relations_in r.info_cache schema) schema (r, w)

  unfoldable pub get_table_names : Option String → Exec (Reflection C × W) (List String)
  unfolding relation_names select is_view_type lookup string_eq
  get_table_names schema = do
    found ← relation_names schema
    pure (select (λ name. not (is_view_type (lookup name found.1))) found.0)

  unfoldable pub get_view_names : Option String → Exec (Reflection C × W) (List String)
  unfolding relation_names select is_view_type lookup string_eq
  get_view_names schema = do
    found ← relation_names schema
    pure (select (λ name. is_view_type (lookup name found.1)) found.0)

  unfoldable pub has_table : String → Option String → Exec (Reflection C × W) Bool
  unfolding relation_names string_eq
  has_table name schema = do found ← relation_names schema; pure (contains found.0 name)

  abbrev pub or_probe :
      Option (Entry C) → String → Option String → Exec (Reflection C × W) (Entry C)
  or_probe (some entry) name schema = pure entry
  or_probe none name schema = probe_and_store schema name

  unfoldable pub get_columns : String → Option String → Exec (Reflection C × W) (List C)
  unfolding probe_and_store entry_in columns_from_entry
  get_columns name schema (r, w) =
      (do
        entry ← or_probe (entry_in r.info_cache schema name) name schema
        lift (columns_from_entry entry name schema))
        (r, w)
