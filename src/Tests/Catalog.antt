-- ===== src/Tests/Catalog.antt =====
-- Catalog discovery and GetTables responses against a server with one catalog.
use flightsql_dbapi.Prelude.{
  ℕ, ◌+◌, ◌≡◌, ◌≢◌, refl, true, false, none, some, List, [], ◌∷◌, String, contains, string_eq, map,
  All, option_eq,
}
use flightsql_dbapi.Prelude.Dict.{Dict, lookup}
use flightsql_dbapi.Errors.{ok}
use flightsql_dbapi.Client.Service.{FlightInfo}
use flightsql_dbapi.Dbapi.Response.{null, text, binary, Table, table, MetadataClient}
use flightsql_dbapi.Dbapi.Catalog.{Scope, catalog_fallback}
use flightsql_dbapi.Dbapi.Catalog.Laws.{catalog_fallback-Settled, Settled}
use flightsql_dbapi.Effects.Every.{Every}
use flightsql_dbapi.Dbapi.Tables.{Row, Decoder, table_metadata_rows}
use flightsql_dbapi.Dbapi.Tables.Request.{result_of_tables}
use flightsql_dbapi.Dbapi.Connection.Names.{NamesOf, table_names-NamesOf}
use flightsql_dbapi.Dbapi.Tables.Parse.{parse_table_schema_rows}
use flightsql_dbapi.Dbapi.Tables.Named.{named, OneSchema}
use flightsql_dbapi.Dbapi.Tables.Columns.{
  Decodes, parse_table_schema_rows-Decodes, parse_table_schema_rows-OneSchema,
}

abbrev info : FlightInfo
info = record { endpoints = some (some [] ∷ []) }

abbrev nothing : FlightInfo
nothing = record { endpoints = some [] }

abbrev catalogs : Table
catalogs = record {
  column_names = "catalog_name" ∷ [];
  num_rows = 1;
  values = λ name. [];
  texts = λ name. some "main" ∷ [];
}

-- The world is the number of requests.
abbrev server : MetadataClient ℕ (Unit {0})
server = record {
  get_tables = λ request n. (ok nothing, n + 1);
  get_db_schemas = λ catalog n. (ok nothing, n + 1);
  get_catalogs = λ n. (ok info, n + 1);
  execute = λ query n. (ok nothing, n + 1);
  do_get = λ ticket n. (ok tt, n + 1);
  read_all = λ reader. some (λ n. (ok (table catalogs), n + 1));
}

abbrev undecided : Scope
undecided = record { catalog = none; resolved = none }

abbrev resolved_main : Scope
resolved_main = record { catalog = none; resolved = some (some "main") }

-- The schemas are empty, so the only catalog is taken.
discovers : catalog_fallback server false (undecided, 0) ≡ (ok true, (resolved_main, 4))
unfolding catalog_fallback option_eq
discovers = refl

catalog_fallback-Settled_example :
    Settled server undecided (catalog_fallback server false (undecided, 0))
catalog_fallback-Settled_example = catalog_fallback-Settled server false undecided 0

-- A schema is read as its bytes, which are its columns.
abbrev decoder : Decoder (List ℕ) ℕ
decoder = record { open_stream = λ bytes. ok bytes; column_specs = λ schema. ok schema }

abbrev rows : List Row
rows =
    record {
      name = "t";
      row_schema = some "public";
      serialized_schema = binary (1 ∷ 2 ∷ []);
      has_table_schema = true;
    }
    ∷ []

abbrev columns : Dict String (List ℕ)
columns = ("t", 1 ∷ 2 ∷ []) ∷ []

parsed : parse_table_schema_rows decoder rows none ≡ ok columns
unfolding parse_table_schema_rows option_eq
parsed = refl

has_columns : lookup "t" columns ≢ none
unfolding lookup string_eq
has_columns e = cc

parse_table_schema_rows-Decodes_example :
    (contains (map Row.name rows) "t" ≡ true) × All (Decodes decoder) (named "t" rows)
parse_table_schema_rows-Decodes_example =
    parse_table_schema_rows-Decodes decoder rows none columns "t" parsed has_columns

parse_table_schema_rows-OneSchema_example : OneSchema (named "t" rows)
parse_table_schema_rows-OneSchema_example =
    parse_table_schema_rows-OneSchema decoder rows columns "t" parsed has_columns

abbrev tables : Table
tables = record {
  column_names = "table_name" ∷ [];
  num_rows = 2;
  values = λ name. text "t" ∷ text "t" ∷ [];
  texts = λ name. [];
}

abbrev bare_row : Row
bare_row = record {
  name = "t";
  row_schema = none;
  serialized_schema = null;
  has_table_schema = false;
}

accepted : table_metadata_rows none (tables ∷ []) ≡ ok (bare_row ∷ bare_row ∷ [])
unfolding table_metadata_rows
accepted = refl

table_names-NamesOf_example :
    Every (NamesOf (bare_row ∷ bare_row ∷ [])) (result_of_tables decoder none (tables ∷ []))
table_names-NamesOf_example =
    table_names-NamesOf decoder none (tables ∷ []) (bare_row ∷ bare_row ∷ []) accepted
