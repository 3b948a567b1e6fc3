-- ===== src/Dbapi/Connection/Metadata.antt =====
-- flightsql/dbapi.py, Connection: the metadata methods.
use flightsql_dbapi.Prelude.{
  ◌==◌, string_eq, option_eq, if◌then◌else◌, Bool, true, false, ◌&&◌, Option, none, some, List, [],
  ◌∷◌, String,
}
use flightsql_dbapi.Prelude.Dict.{Dict, lookup}
use flightsql_dbapi.Prelude.Distinct.{distinct}
use flightsql_dbapi.Errors.Translate.{already_closed}
use flightsql_dbapi.Effects.{Exec, pure, raise, on_world, translating, ◌>>=◌}
use flightsql_dbapi.Client.Service.{TablesRequest}
use flightsql_dbapi.Dbapi.Response.{Value, MetadataClient}
use flightsql_dbapi.Dbapi.Catalog.{Scope, is_none, metadata_catalog, schema_names, catalog_fallback}
use flightsql_dbapi.Dbapi.Tables.{TableMetadataResult, Decoder}
use flightsql_dbapi.Dbapi.Tables.Request.{is_empty, get_table_metadata}

-- The filters of the four requests.
abbrev pub request_for : Option String → Option String → Bool → TablesRequest
request_for schema table_name include_schema = record {
  catalog = none;
  include_schema = include_schema;
  table_name_filter_pattern = table_name;
  table_types = none;
  db_schema_filter_pattern = schema;
}

-- `[name for name in names if name == table_name]`
unfoldable pub exact_names : String → List String → List String
unfolding string_eq
exact_names table_name [] = []
exact_names table_name (name ∷ names) =
    let rest = exact_names table_name names in if name == table_name then name ∷ rest else rest

abbrev pub names_only :
    {C : Type 0} → List String → Option (Dict String Value) → TableMetadataResult C
names_only names types = record {
  table_names = names;
  columns_by_name = none;
  included_schema_supported = false;
  table_types = types;
}

-- `result.columns_by_name == {}`
unfoldable pub is_empty_dict : {C : Type 0} → Option (Dict String (List C)) → Bool
is_empty_dict none = false
is_empty_dict (some []) = true
is_empty_dict (some (entry ∷ entries)) = false

module _ {W Reader : Type 0} (client : MetadataClient W Reader) where
  abbrev names_again : List (Option String) → Bool → Exec (Scope × W) (List (Option String))
  names_again names false (scope, w) = pure names (scope, w)
  names_again names true (scope, w) =
      on_world (schema_names client (metadata_catalog scope)) (scope, w)

  -- The second request, after an empty answer.
  abbrev pub names_or_again :
      List (Option String) → Option String → Exec (Scope × W) (List (Option String))
  names_or_again [] catalog = catalog_fallback client (is_none catalog) >>= names_again []
  names_or_again (name ∷ names) catalog = pure (name ∷ names)

  unfoldable pub schema_names_body : Exec (Scope × W) (List (Option String))
  unfolding schema_names catalog_fallback metadata_catalog distinct option_eq string_eq
  schema_names_body (scope, w) =
      (do
        names ← on_world (schema_names client (metadata_catalog scope))
        found ← names_or_again names (metadata_catalog scope)
        pure (distinct found))
        (scope, w)

module _ {W Reader Schema C : Type 0} (client : MetadataClient W Reader)
    (decoder : Decoder Schema C) where
  unfoldable pub table_names_body : Option String → Exec (Scope × W) (List String)
  unfolding get_table_metadata
  table_names_body schema = do
    result ← get_table_metadata client decoder schema (request_for schema none false)
    pure result.table_names

  abbrev or_names_only : TableMetadataResult C → TableMetadataResult C → TableMetadataResult C
  or_names_only result names =
      if is_empty names.table_names then result else names_only names.table_names names.table_types

  abbrev checked_metadata :
      Option String → TableMetadataResult C → Bool → Exec (Scope × W) (TableMetadataResult C)
  checked_metadata schema result false = pure result
  checked_metadata schema result true = do
    names ← get_table_metadata client decoder schema (request_for schema none false)
    pure (or_names_only result names)

  unfoldable pub table_metadata_body : Option String → Exec (Scope × W) (TableMetadataResult C)
  unfolding get_table_metadata is_empty_dict
  table_metadata_body schema = do
    result ← get_table_metadata client decoder schema (request_for schema none true)
    checked_metadata schema result
        (is_empty result.table_names && is_empty_dict result.columns_by_name)

  abbrev or_exact : TableMetadataResult C → List String → TableMetadataResult C
  or_exact result [] = result
  or_exact result (name ∷ names) = names_only (name ∷ names) none

  abbrev checked_for_table :
      String
      → Option String
      → TableMetadataResult C
      → Bool
      → Exec (Scope × W) (TableMetadataResult C)
  checked_for_table table_name schema result false = pure result
  checked_for_table table_name schema result true = do
    names ← get_table_metadata client decoder schema (request_for schema (some table_name) false)
    pure (or_exact result (exact_names table_name names.table_names))

  unfoldable pub metadata_for_table_body :
      String → Option String → Exec (Scope × W) (TableMetadataResult C)
  unfolding get_table_metadata exact_names
  metadata_for_table_body table_name schema = do
    result ← get_table_metadata client decoder schema (request_for schema (some table_name) true)
    checked_for_table table_name schema result (is_empty result.table_names)

  -- `metadata.get(table_name, [])`
  abbrev columns_in : String → Option (Dict String (List C)) → List C
  columns_in table_name none = []
  columns_in table_name (some metadata) = or_nothing (lookup table_name metadata)
    where
      or_nothing : Option (List C) → List C
      or_nothing none = []
      or_nothing (some columns) = columns

  -- `flightsql_get_columns` on an open connection, where the inner method translates errors.
  unfoldable pub columns_body : String → Option String → Exec (Scope × W) (List C)
  unfolding metadata_for_table_body lookup string_eq
  columns_body table_name schema = do
    result ← translating (metadata_for_table_body table_name schema)
    pure (columns_in table_name result.columns_by_name)

-- `@check_closed @translate_errors` around a body, for the closed flag of the connection.
unfoldable pub metadata_method : {A W : Type 0} → Bool → Exec (Scope × W) A → Exec (Scope × W) A
metadata_method closed body s =
    if closed then raise (already_closed "Connection") s else translating body s
