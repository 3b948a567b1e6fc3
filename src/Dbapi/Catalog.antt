-- ===== src/Dbapi/Catalog.antt =====
-- flightsql/dbapi.py, Connection: the catalog that scopes metadata requests, and its discovery.
pub mod Laws
use flightsql_dbapi.Prelude.{
  eqb, ℕ, Bool, true, false, not, ◌||◌, ◌&&◌, Option, none, some, List, [], ◌∷◌, ◌++◌, String, ◌==◌,
  any, contains, string_eq, option_eq, if◌then◌else◌,
}
use flightsql_dbapi.Errors.{
  ForeignClass, flight_unavailable, flight_timed_out, flight_cancelled, flight_internal,
  flight_server, flight_error, arrow_not_implemented, arrow_invalid, Foreign, Exn, pep, foreign,
  python_error, Result, ok, raised,
}
use flightsql_dbapi.Effects.{Exec, pure, raise, lift, on_world, translating, ◌>>=◌, ◌>>◌}
use flightsql_dbapi.Dbapi.Response.{
  Value, null, text, binary, other, Table, MetadataClient, tables_from_info,
}

-- `self.catalog` and `self._resolved_catalog`: None while undecided, and a one-element tuple after.
pub record Scope : Type 0 where
  pub catalog : Option String
  pub resolved : Option (Option String)

unfoldable pub transient_probe_errors : List ForeignClass
transient_probe_errors = flight_unavailable ∷ flight_timed_out ∷ flight_cancelled ∷ []

unfoldable pub transient_metadata_probe_errors : List ForeignClass
unfolding transient_probe_errors
transient_metadata_probe_errors = transient_probe_errors ++ (flight_internal ∷ flight_server ∷ [])

-- `self._resolved_catalog[0] if self._resolved_catalog else None`
unfoldable pub resolved_catalog : Option (Option String) → Option String
resolved_catalog none = none
resolved_catalog (some name) = name

unfoldable pub or_resolved : Option String → Option (Option String) → Option String
unfolding resolved_catalog
or_resolved (some catalog) resolved = some catalog
or_resolved none resolved = resolved_catalog resolved

unfoldable pub metadata_catalog : Scope → Option String
unfolding or_resolved
metadata_catalog scope = or_resolved scope.catalog scope.resolved

-- `isinstance(error, transient)`
unfoldable pub is_transient : List ForeignClass → Foreign → Bool
is_transient transient error = any error.is_instance transient

abbrev pub is_none : {A : Type 0} → Option A → Bool
is_none none = true
is_none (some a) = false

-- The names of one column over the tables that have it.
unfoldable pub column_texts : String → List Table → List (Option String)
unfolding string_eq
column_texts name [] = []
column_texts name (t ∷ ts) =
    (if contains t.column_names name then t.texts name else []) ++ column_texts name ts

-- `name for name in ... if name`
unfoldable pub filled_names : List (Option String) → List String
unfolding string_eq
filled_names [] = []
filled_names (none ∷ names) = filled_names names
filled_names (some name ∷ names) =
    let rest = filled_names names in if name == "" then rest else name ∷ rest

-- Without the column a KeyError, if there is a row to look into.
unfoldable pub table_values : Bool → Table → Result (List Value)
table_values true t = ok (t.values "value")
table_values false t = if eqb t.num_rows 0 then ok [] else raised (foreign (python_error "value"))

abbrev joined_values : Result (List Value) → Result (List Value) → Result (List Value)
joined_values (raised e) rest = raised e
joined_values (ok values) (raised e) = raised e
joined_values (ok values) (ok rest) = ok (values ++ rest)

-- `row["value"] for table in ... for row in table.to_pylist()`
unfoldable pub setting_values : List Table → Result (List Value)
unfolding table_values string_eq
setting_values [] = ok []
setting_values (t ∷ ts) =
    joined_values (table_values (contains t.column_names "value") t) (setting_values ts)

-- `len(set(catalogs)) == 1`: one name, any number of times.
unfoldable pub is_single : List String → Bool
unfolding string_eq
is_single [] = false
is_single (name ∷ names) = not (any (λ n. not (n == name)) names)

-- The one value, if it is a text that is listed.
unfoldable pub listed_text : Value → List String → Option String
unfolding string_eq
listed_text (text name) catalogs = if contains catalogs name then some name else none
listed_text null catalogs = none
listed_text (binary bytes) catalogs = none
listed_text other catalogs = none

unfoldable pub listed_default : List Value → List String → Option String
unfolding listed_text
listed_default [] catalogs = none
listed_default (value ∷ []) catalogs = listed_text value catalogs
listed_default (value ∷ next ∷ values) catalogs = none

-- How the unscoped GetDbSchemas came out, by the handlers around it.
pub data Probe : Type 0 where
  empty answers : Probe
  failed : Foreign → Probe
  propagated : Exn → Probe

unfoldable pub schemas_probe : Result (List (Option String)) → Probe
schemas_probe (ok []) = empty
schemas_probe (ok (name ∷ names)) = answers
schemas_probe (raised (pep c m k)) = propagated (pep c m k)
schemas_probe (raised (foreign e)) =
    if e.is_instance arrow_not_implemented
    then empty
    else if e.is_instance flight_error || e.is_instance arrow_invalid
    then failed e
    else propagated (foreign e)

-- `except (pa.ArrowNotImplementedError, flight.FlightError, pa.ArrowInvalid)`
unfoldable pub is_probe_error : Foreign → Bool
is_probe_error e =
    e.is_instance arrow_not_implemented
    || (e.is_instance flight_error || e.is_instance arrow_invalid)

abbrev pub default_catalog_query : String
default_catalog_query =
    "SELECT value FROM information_schema.df_settings WHERE name = 'datafusion.catalog.default_catalog'"

module _ {W Reader : Type 0} (client : MetadataClient W Reader) where
  unfoldable pub schema_names : Option String → Exec W (List (Option String))
  unfolding tables_from_info column_texts
  schema_names catalog = do
    info ← client.get_db_schemas catalog
    tables ← tables_from_info client info
    pure (column_texts "db_schema_name" tables)

  unfoldable pub catalog_names : Exec W (List String)
  unfolding tables_from_info column_texts filled_names
  catalog_names = do
    info ← client.get_catalogs
    tables ← tables_from_info client info
    pure (filled_names (column_texts "catalog_name" tables))

  unfoldable pub default_catalog : List String → Exec W (Option String)
  unfolding tables_from_info setting_values listed_default
  default_catalog catalogs = do
    info ← client.execute default_catalog_query
    tables ← tables_from_info client info
    values ← lift (setting_values tables)
    pure (listed_default values catalogs)

  -- `_catalog_probe_failed`: the empty answer stands, and is cached unless the failure is transient.
  unfoldable pub catalog_probe_failed : Foreign → List ForeignClass → Exec (Scope × W) Bool
  unfolding is_transient
  catalog_probe_failed error transient (scope, w) = (
    ok false,
    ((if is_transient transient error then scope else record scope { resolved = some none }), w),
  )

  -- `self._resolved_catalog = (resolved,); return resolved is not None`
  unfoldable pub decide : Option String → Exec (Scope × W) Bool
  decide name (scope, w) = (ok (not (is_none name)), (record scope { resolved = some name }, w))

  -- The two `try` statements of the discovery, each on the outcome of what it tried.
  unfoldable pub after_default : Result (Option String) → Exec (Scope × W) Bool
  unfolding decide is_probe_error catalog_probe_failed transient_probe_errors
  after_default (ok name) = decide name
  after_default (raised (pep c m k)) = raise (pep c m k)
  after_default (raised (foreign e)) =
      if is_probe_error e then catalog_probe_failed e transient_probe_errors else raise (foreign e)

  unfoldable pub choose_catalog : List String → Exec (Scope × W) Bool
  unfolding is_single decide after_default default_catalog
  choose_catalog [] (scope, w) = decide none (scope, w)
  choose_catalog (name ∷ names) (scope, w) =
      if is_single (name ∷ names)
      then decide (some name) (scope, w)
      else (let (r, w') = default_catalog (name ∷ names) w in after_default r (scope, w'))

  unfoldable pub after_catalogs : Result (List String) → Exec (Scope × W) Bool
  unfolding choose_catalog is_probe_error catalog_probe_failed transient_metadata_probe_errors
  after_catalogs (ok names) = choose_catalog names
  after_catalogs (raised (pep c m k)) = raise (pep c m k)
  after_catalogs (raised (foreign e)) =
      if is_probe_error e
      then catalog_probe_failed e transient_metadata_probe_errors
      else raise (foreign e)

  unfoldable pub resolve_catalog : Exec (Scope × W) Bool
  unfolding after_catalogs catalog_names
  resolve_catalog (scope, w) = let (r, w') = catalog_names w in after_catalogs r (scope, w')

  unfoldable pub after_schemas : Probe → Exec (Scope × W) Bool
  unfolding resolve_catalog decide catalog_probe_failed transient_metadata_probe_errors
  after_schemas empty = resolve_catalog
  after_schemas answers = decide none
  after_schemas (failed e) = catalog_probe_failed e transient_metadata_probe_errors
  after_schemas (propagated e) = raise e

  unfoldable pub catalog_fallback : Bool → Exec (Scope × W) Bool
  unfolding resolve_catalog after_schemas schema_names schemas_probe
  catalog_fallback unscoped_schemas_empty (scope, w) =
      if not (is_none scope.catalog) || not (is_none scope.resolved)
      then (ok false, (scope, w))
      else if unscoped_schemas_empty
      then resolve_catalog (scope, w)
      else (let (r, w') = schema_names none w in after_schemas (schemas_probe r) (scope, w'))
