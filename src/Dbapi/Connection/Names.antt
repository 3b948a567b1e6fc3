-- ===== src/Dbapi/Connection/Names.antt =====
-- flightsql/dbapi.py, Connection: the lists of table names and of schema names.
use flightsql_dbapi.Prelude.{
  ◌≡◌, refl, sym, subst, Bool, Option, List, [], ◌∷◌, String, contains, string_eq, option_eq, map,
}
use flightsql_dbapi.Errors.{Result, ok, raised}
use flightsql_dbapi.Prelude.Dict.{Dict}
use flightsql_dbapi.Prelude.Distinct.{distinct, Distinct, distinct-Distinct, contains-distinct}
use flightsql_dbapi.Effects.{on_world}
use flightsql_dbapi.Effects.Every.{Every, Every-continue, Every-Unit}
use flightsql_dbapi.Dbapi.Response.{Value, MetadataClient, Table}
use flightsql_dbapi.Dbapi.Catalog.{Scope, schema_names, metadata_catalog}
use flightsql_dbapi.Dbapi.Tables.{
  Row, Decoder, TableMetadataResult, table_metadata_rows, saw_table_schema, table_types_of,
}
use flightsql_dbapi.Dbapi.Tables.Parse.{parse_table_schema_rows}
use flightsql_dbapi.Dbapi.Tables.Request.{
  with_metadata, result_of, result_of_rows, result_of_tables,
}
use flightsql_dbapi.Dbapi.Connection.Metadata.{schema_names_body, names_or_again}

abbrev pub NamesOf : {C : Type 0} → List Row → TableMetadataResult C → Type 0
NamesOf rows result =
    Distinct result.table_names
    × ((name : String) → contains result.table_names name ≡ contains (map Row.name rows) name)

with_metadata-NamesOf :
    {Schema C : Type 0} (decoder : Decoder Schema C) (rows : List Row) (names : List String)
    (saw : Bool) (types : Option (Dict String Value)) (r : Result (Dict String (List C)))
    → Distinct names
    → ((name : String) → contains names name ≡ contains (map Row.name rows) name)
    → Every (NamesOf rows) (with_metadata decoder names saw types r)
unfolding result_of
with_metadata-NamesOf decoder rows names saw types (ok metadata) h g = (h, g)
with_metadata-NamesOf decoder rows names saw types (raised e) h g = tt

-- Where the rows of a GetTables response are accepted and a result is returned, its table names are
-- the names of the rows, each once.
pub table_names-NamesOf :
    {Schema C : Type 0} (decoder : Decoder Schema C) (requested : Option String)
    (tables : List Table) (rows : List Row)
    → table_metadata_rows requested tables ≡ ok rows
    → Every (NamesOf rows) (result_of_tables decoder requested tables)
unfolding result_of_tables
table_names-NamesOf decoder requested tables rows e =
    subst (λ r. Every (NamesOf rows) (result_of_rows decoder tables requested r)) (sym e)
      (named rows)
  where
    named :
        (rows : List Row) → Every (NamesOf rows) (result_of_rows decoder tables requested (ok rows))
    named [] = (tt, λ name. refl)
    named (row ∷ rows) =
        with_metadata-NamesOf decoder (row ∷ rows) (distinct (map Row.name (row ∷ rows)))
          (saw_table_schema tables) (table_types_of requested tables)
          (parse_table_schema_rows decoder (row ∷ rows) requested)
          (distinct-Distinct (map Row.name (row ∷ rows)))
          (λ name. contains-distinct name (map Row.name (row ∷ rows)))

-- `flightsql_get_schema_names` returns no name twice, whatever the server answers.
pub schema_names_body-Distinct :
    {W Reader : Type 0} (client : MetadataClient W Reader) (scope : Scope) (w : W)
    → Every Distinct (schema_names_body client (scope, w)).0
unfolding schema_names_body
schema_names_body-Distinct client scope w =
    Every-continue (λ _. Unit {0}) Distinct
      (on_world (schema_names client (metadata_catalog scope)) (scope, w)) _ (Every-Unit _)
      (λ names s _.
        Every-continue (λ _. Unit {0}) Distinct
          (names_or_again client names (metadata_catalog scope) s) _ (Every-Unit _)
          (λ found s' _. distinct-Distinct found))
