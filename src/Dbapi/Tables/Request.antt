-- ===== src/Dbapi/Tables/Request.antt =====
-- flightsql/dbapi.py, Connection: the GetTables requests, repeated in a catalog that was found.
use flightsql_dbapi.Prelude.{
  Bool, true, false, Option, none, some, List, [], ◌∷◌, String, map, string_eq, if◌then◌else◌,
  length, eqb,
}
use flightsql_dbapi.Prelude.Dict.{Dict}
use flightsql_dbapi.Prelude.Distinct.{distinct}
use flightsql_dbapi.Errors.{Result, ok, raised}
use flightsql_dbapi.Effects.{Exec, pure, lift, on_world, ◌>>=◌}
use flightsql_dbapi.Client.Service.{FlightInfo, TablesRequest}
use flightsql_dbapi.Dbapi.Response.{Value, Table, MetadataClient, tables_from_info}
use flightsql_dbapi.Dbapi.Catalog.{Scope, metadata_catalog, catalog_fallback}
use flightsql_dbapi.Dbapi.Tables.{
  TableMetadataResult, Row, Decoder, table_metadata_rows, saw_table_schema, table_types_of,
}
use flightsql_dbapi.Dbapi.Tables.Parse.{parse_table_schema_rows}

abbrev pub is_empty : {A : Type 0} → List A → Bool
is_empty [] = true
is_empty (x ∷ xs) = false

module _ {Schema C : Type 0} (decoder : Decoder Schema C) where
  -- `TableMetadataResult([], {}, True)`
  abbrev pub no_tables : TableMetadataResult C
  no_tables = record {
    table_names = [];
    columns_by_name = some [];
    included_schema_supported = true;
    table_types = none;
  }

  -- The result for the metadata of the names: all columns, none at all, or some.
  unfoldable pub result_of :
      List String → Dict String (List C) → Bool → Option (Dict String Value) → TableMetadataResult C
  result_of names metadata saw types = record {
    table_names = names;
    columns_by_name =
        if eqb (length metadata) (length names)
        then some metadata
        else (if saw then some metadata else none);
    included_schema_supported = eqb (length metadata) (length names);
    table_types = types;
  }

  abbrev pub with_metadata :
      List String
      → Bool
      → Option (Dict String Value)
      → Result (Dict String (List C))
      → Result (TableMetadataResult C)
  with_metadata names saw types (raised e) = raised e
  with_metadata names saw types (ok metadata) = ok (result_of names metadata saw types)

  unfoldable pub result_of_rows :
      List Table → Option String → Result (List Row) → Result (TableMetadataResult C)
  unfolding distinct string_eq result_of table_types_of parse_table_schema_rows saw_table_schema
  result_of_rows tables requested (raised e) = raised e
  result_of_rows tables requested (ok []) = ok no_tables
  result_of_rows tables requested (ok (row ∷ rows)) =
      with_metadata (distinct (map Row.name (row ∷ rows))) (saw_table_schema tables)
        (table_types_of requested tables) (parse_table_schema_rows decoder (row ∷ rows) requested)

  unfoldable pub result_of_tables : Option String → List Table → Result (TableMetadataResult C)
  unfolding result_of_rows table_metadata_rows
  result_of_tables requested tables =
      result_of_rows tables requested (table_metadata_rows requested tables)

module _ {W Reader Schema C : Type 0} (client : MetadataClient W Reader)
    (decoder : Decoder Schema C) where
  unfoldable pub table_metadata_from_info :
      FlightInfo → Option String → Exec W (TableMetadataResult C)
  unfolding tables_from_info result_of_tables
  table_metadata_from_info info requested = do
    tables ← tables_from_info client info
    lift (result_of_tables decoder requested tables)

  -- One GetTables request in a catalog.
  unfoldable pub request_tables :
      Option String → TablesRequest → Option String → Exec W (TableMetadataResult C)
  unfolding table_metadata_from_info
  request_tables requested request catalog = do
    info ← client.get_tables (record request { catalog = catalog })
    table_metadata_from_info info requested

  unfoldable pub again_if :
      Option String
      → TablesRequest
      → TableMetadataResult C
      → Bool
      → Exec (Scope × W) (TableMetadataResult C)
  unfolding request_tables metadata_catalog
  again_if requested request result false (scope, w) = pure result (scope, w)
  again_if requested request result true (scope, w) =
      on_world (request_tables requested request (metadata_catalog scope)) (scope, w)

  unfoldable pub fallback_if :
      Option String
      → TablesRequest
      → TableMetadataResult C
      → Bool
      → Exec (Scope × W) (TableMetadataResult C)
  unfolding again_if catalog_fallback
  fallback_if requested request result false = pure result
  fallback_if requested request result true =
      catalog_fallback client false >>= again_if requested request result

  unfoldable pub get_table_metadata :
      Option String → TablesRequest → Exec (Scope × W) (TableMetadataResult C)
  unfolding request_tables metadata_catalog fallback_if
  get_table_metadata requested request (scope, w) =
      (on_world (request_tables requested request (metadata_catalog scope)) >>= λ result.
      fallback_if requested request result (is_empty result.table_names))
        (scope, w)
