-- ===== src/Sqlalchemy/Reflection.antt =====
-- flightsql/sqlalchemy.py, FlightSQLDialect: table, view and column names, and the columns of a
-- table, with the cache that SQLAlchemy passes to reflection methods.
pub mod Methods
pub mod Entries
pub mod Coherence
pub mod Probes
pub mod Uncached
pub mod Laws
pub mod Answers
pub mod Partition
use flightsql_dbapi.Prelude.{
  ℕ, ◌+◌, Bool, true, false, not, ◌&&◌, ◌||◌, Option, none, some, List, [], ◌∷◌, ◌++◌, String, ◌<>◌,
  ◌==◌, contains, string_eq, option_eq, bytes_eq, pair_eq, if◌then◌else◌, length,
}
use flightsql_dbapi.Prelude.Dict.{Dict, lookup, insert, keys}
use flightsql_dbapi.Prelude.Distinct.{distinct}
use flightsql_dbapi.Prelude.Text.{codes, strip, upper}
use flightsql_dbapi.Errors.{Exn, foreign, python_error, Result, ok, raised}
use flightsql_dbapi.Effects.{Exec, pure, raise, lift, on_world, ◌>>=◌, ◌>>◌}
use flightsql_dbapi.Dbapi.Response.{Value, null, text, binary, other}
use flightsql_dbapi.Dbapi.Tables.{TableMetadataResult}

-- _TableColumnCacheEntry, by its status.
pub data Entry (C : Type 0) : Type 0 where
  columns : List C → Entry C
  missing unreflectable : Entry C

-- What flightsql_get_table_metadata returns. Adapters of an earlier shape return None or a
-- dictionary.
pub data Metadata (C : Type 0) : Type 0 where
  result : TableMetadataResult C → Metadata C
  legacy : Dict String (List C) → Metadata C
  nothing : Metadata C

-- The DB API connection as reflection sees it. An adapter may lack the richer probe, and its probe
-- may return a value of some other type.
pub record Adapter (W C : Type 0) : Type 0 where
  pub get_table_metadata : Option String → Exec W (Metadata C)
  pub get_table_names : Option String → Exec W (List String)
  pub get_table_metadata_for_table :
      Option (String → Option String → Exec W (Option (TableMetadataResult C)))
  pub get_columns : String → Option String → Exec W (List C)

-- What `_relation_names` returns: the names, and the type of each.
abbrev pub Relations : Type 0
Relations = List String × Dict String Value

-- The entries that this module keeps in `info_cache`, by the kinds of its keys.
pub record InfoCache (C : Type 0) : Type 0 where
  pub relations : Dict (Option String) Relations
  pub entries : Dict (Option String × String) (Entry C)

-- The numbers in the warning of `_warn_degraded_reflection`.
pub record Degraded : Type 0 where
  pub schema : Option String
  pub probes : ℕ
  pub recovered : ℕ
  pub unreflectable : ℕ
  pub stale : ℕ

-- `info_cache`, which may be absent, and the dialect: `_degraded_reflection_warned_schemas` and
-- the warnings sent so far, the latest first.
pub record Reflection (C : Type 0) : Type 0 where
  pub info_cache : Option (InfoCache C)
  pub warned : List (Option String)
  pub warnings : List Degraded

-- An exception of sqlalchemy.exc.
abbrev pub sqlalchemy_error : String → String → Exn
sqlalchemy_error class_name message = foreign (python_error (class_name <> (": " <> message)))

-- `isinstance(table_type, str) and table_type.strip().upper() == "VIEW"`
unfoldable pub is_view_type : Option Value → Bool
unfolding strip upper bytes_eq
is_view_type none = false
is_view_type (some null) = false
is_view_type (some (binary b)) = false
is_view_type (some other) = false
is_view_type (some (text s)) = upper (strip (codes s)) == codes "VIEW"

-- `[name for name in names if ...]`
unfoldable pub select : (String → Bool) → List String → List String
select p [] = []
select p (name ∷ names) = let rest = select p names in if p name then name ∷ rest else rest

-- `d or {}`
abbrev pub or_empty_dict : {V : Type 0} → Option (Dict String V) → Dict String V
or_empty_dict none = []
or_empty_dict (some d) = d

abbrev qualified_name : String → Option String → String
qualified_name name none = name
qualified_name name (some schema) = schema <> ("." <> name)

module _ {C : Type 0} where
  unfoldable pub is_known : Dict String (List C) → String → Bool
  unfolding string_eq
  is_known d name = contains (keys d) name

  abbrev found_or : Option (List C) → Entry C → Entry C
  found_or none otherwise = otherwise
  found_or (some cs) otherwise = columns cs

  -- The entry of a table, by the result of its probe.
  unfoldable pub entry_of : String → TableMetadataResult C → Entry C
  unfolding string_eq lookup
  entry_of name probed =
      found_or (lookup name (or_empty_dict probed.columns_by_name))
        (if contains probed.table_names name then unreflectable else missing)

  -- The entry by an adapter without that probe: no columns means no table.
  unfoldable pub entry_of_columns : List C → Entry C
  entry_of_columns [] = missing
  entry_of_columns (c ∷ cs) = columns (c ∷ cs)

  -- Of the messages only the table's name is kept.
  unfoldable pub columns_from_entry : Entry C → String → Option String → Result (List C)
  columns_from_entry (columns cs) name schema = ok cs
  columns_from_entry missing name schema =
      raised (sqlalchemy_error "NoSuchTableError" (qualified_name name schema))
  columns_from_entry unreflectable name schema =
      raised (sqlalchemy_error "UnreflectableTableError" (qualified_name name schema))

  unfoldable pub entry_in : Option (InfoCache C) → Option String → String → Option (Entry C)
  unfolding lookup pair_eq option_eq string_eq
  entry_in none schema name = none
  entry_in (some cache) schema name = lookup (schema, name) cache.entries

  unfoldable pub with_entry :
      Option String → String → Entry C → Option (InfoCache C) → Option (InfoCache C)
  unfolding insert pair_eq option_eq string_eq
  with_entry schema name entry none = none
  with_entry schema name entry (some cache) =
      some (record cache { entries = insert (schema, name) entry cache.entries })

  unfoldable pub store_entry : Option String → String → Entry C → Reflection C → Reflection C
  unfolding with_entry
  store_entry schema name entry r = record r {
    info_cache = with_entry schema name entry r.info_cache;
  }

  -- The loop over `columns_by_name.items()`.
  unfoldable pub store_columns : Option String → Dict String (List C) → Reflection C → Reflection C
  unfolding store_entry
  store_columns schema [] r = r
  store_columns schema ((name, cs) ∷ rest) r =
      store_columns schema rest (store_entry schema name (columns cs) r)

  unfoldable pub relations_in : Option (InfoCache C) → Option String → Option Relations
  unfolding lookup option_eq string_eq
  relations_in none schema = none
  relations_in (some cache) schema = lookup schema cache.relations

  unfoldable pub with_relations :
      Option String → Relations → Option (InfoCache C) → Option (InfoCache C)
  unfolding insert option_eq string_eq
  with_relations schema relations none = none
  with_relations schema relations (some cache) =
      some (record cache { relations = insert schema relations cache.relations })

  unfoldable pub store_relations : Option String → Relations → Reflection C → Reflection C
  unfolding with_relations
  store_relations schema relations r = record r {
    info_cache = with_relations schema relations r.info_cache;
  }

  -- `_warn_degraded_reflection`: one warning for a schema.
  unfoldable pub warn_degraded : Degraded → Reflection C → Reflection C
  unfolding option_eq string_eq
  warn_degraded degraded r =
      if contains r.warned degraded.schema
      then r
      else (record r { warned = degraded.schema ∷ r.warned; warnings = degraded ∷ r.warnings })
