-- ===== src/Client/Service.antt =====
-- The Flight client and server that FlightSQLClient wraps. They are pyarrow's: every call is a
-- parameter, with the state `W` of everything behind it.
use flightsql_dbapi.Prelude.{ℕ, Bool, Option, List, String}
use flightsql_dbapi.Effects.{Exec}
use flightsql_dbapi.Client.Options.{FlightOptions}

-- flightsql/client.py, TableRef.
pub record TableRef : Type 0 where
  pub catalog : Option String
  pub db_schema : Option String
  pub table : String

-- The filters of CommandGetTables.
pub record TablesRequest : Type 0 where
  pub catalog : Option String
  pub include_schema : Bool
  pub table_name_filter_pattern : Option String
  pub table_types : Option (List String)
  pub db_schema_filter_pattern : Option String

-- The protobuf commands that the client packs into descriptors.
pub data Command : Type 0 where
  statement_query statement_update : String → Command
  tables : TablesRequest → Command
  db_schemas : Option String → Option String → Command
  catalogs table_types : Command
  primary_keys exported_keys imported_keys : TableRef → Command
  cross_reference : TableRef → TableRef → Command
  xdbc_type_info : Option ℕ → Command
  sql_info : List ℕ → Command
  prepared_statement_query : List ℕ → Command

pub data Action : Type 0 where
  create_prepared_statement : String → Action
  close_prepared_statement : List ℕ → Action

abbrev pub Ticket : Type 0
Ticket = List ℕ

-- `info.endpoints`, with the duck typing that the callers test: `none` if it cannot be iterated,
-- and for each endpoint its ticket, if it has that attribute.
pub record FlightInfo : Type 0 where
  pub endpoints : Option (List (Option Ticket))

-- `Reader` and `Stream` are what DoGet and DoPut return, and `Batch` is an Arrow batch or schema.
pub record Service (W Reader Stream Batch I : Type 0) : Type 0 where
  pub get_flight_info : Command → FlightOptions I → Exec W FlightInfo
  pub do_get : Ticket → FlightOptions I → Exec W Reader
  pub do_put : Command → Option Batch → FlightOptions I → Exec W Stream
  pub write : Stream → Batch → Exec W (Unit {0})
  pub done_writing : Stream → Exec W (Unit {0})
  pub read_metadata : Stream → Exec W (Option (List ℕ))
  pub close_writer : Stream → Exec W (Unit {0})
  pub do_action : Action → FlightOptions I → Exec W (List (List ℕ))
  pub close : Exec W (Unit {0})
