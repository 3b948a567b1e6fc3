-- ===== src/Client/Request.antt =====
-- flightsql/client.py, FlightSQLClient: the requests.
pub mod Laws
use flightsql_dbapi.Prelude.{
  ℕ, Bool, true, false, Option, none, some, List, [], ◌∷◌, String, if◌then◌else◌,
}
use flightsql_dbapi.Prelude.Dict.{Dict}
use flightsql_dbapi.Errors.{Foreign, Exn, foreign, Result, ok, raised}
use flightsql_dbapi.Errors.Translate.{already_closed}
use flightsql_dbapi.Effects.{Exec, pure, raise, lift, on_world, ◌>>=◌, ◌>>◌}
use flightsql_dbapi.Client.Options.{Header, CallOptions, flight_call_options}
use flightsql_dbapi.Client.Service.{
  TableRef, TablesRequest, Command, statement_query, statement_update, tables, db_schemas, catalogs,
  table_types, primary_keys, exported_keys, imported_keys, cross_reference, xdbc_type_info,
  sql_info, Ticket, FlightInfo, Service,
}

pub record Client : Type 0 where
  pub headers : List Header
  pub features : Dict String String
  pub closed : Bool

-- `record_count` of the result that the server sent, and 0 without one.
unfoldable pub updated_rows : (List ℕ → Result ℕ) → Option (List ℕ) → Result ℕ
updated_rows record_count none = ok 0
updated_rows record_count (some bytes) = record_count bytes

module _ {W Reader Stream Batch I : Type 0} (service : Service W Reader Stream Batch I)
    (client : Client) (call_options : Option (CallOptions I)) where
  -- `@check_closed`
  unfoldable pub when_open : {A : Type 0} → Exec W A → Exec W A
  when_open m = if client.closed then raise (already_closed "FlightSQLClient") else m

  unfoldable pub get_flight_info : Command → Exec W FlightInfo
  unfolding when_open
  get_flight_info command =
      when_open (service.get_flight_info command (flight_call_options client.headers call_options))

  unfoldable pub do_get : Ticket → Exec W Reader
  unfolding when_open
  do_get ticket =
      when_open (service.do_get ticket (flight_call_options client.headers call_options))

  -- The schema is that of an empty table.
  unfoldable pub do_put : Command → Exec W Stream
  unfolding when_open
  do_put command =
      when_open (service.do_put command none (flight_call_options client.headers call_options))

  unfoldable pub execute : String → Exec W FlightInfo
  unfolding get_flight_info
  execute query = get_flight_info (statement_query query)

  -- `record_count` is the DoPutUpdateResult message, decoded by the protobuf library.
  unfoldable pub execute_update : (List ℕ → Result ℕ) → String → Exec W ℕ
  unfolding do_put updated_rows
  execute_update record_count query = do
    stream ← do_put (statement_update query)
    result ← service.read_metadata stream
    service.close_writer stream
    lift (updated_rows record_count result)

  unfoldable pub get_tables : TablesRequest → Exec W FlightInfo
  unfolding get_flight_info
  get_tables request = get_flight_info (tables request)

  unfoldable pub get_db_schemas : Option String → Option String → Exec W FlightInfo
  unfolding get_flight_info
  get_db_schemas catalog pattern = get_flight_info (db_schemas catalog pattern)

  unfoldable pub get_catalogs : Exec W FlightInfo
  unfolding get_flight_info
  get_catalogs = get_flight_info catalogs

  unfoldable pub get_primary_keys : TableRef → Exec W FlightInfo
  unfolding get_flight_info
  get_primary_keys table = get_flight_info (primary_keys table)

  unfoldable pub get_exported_keys : TableRef → Exec W FlightInfo
  unfolding get_flight_info
  get_exported_keys table = get_flight_info (exported_keys table)

  unfoldable pub get_imported_keys : TableRef → Exec W FlightInfo
  unfolding get_flight_info
  get_imported_keys table = get_flight_info (imported_keys table)

  unfoldable pub get_cross_reference : TableRef → TableRef → Exec W FlightInfo
  unfolding get_flight_info
  get_cross_reference pk_table fk_table = get_flight_info (cross_reference pk_table fk_table)

  unfoldable pub get_xdbc_type_info : Option ℕ → Exec W FlightInfo
  unfolding get_flight_info
  get_xdbc_type_info data_type = get_flight_info (xdbc_type_info data_type)

  unfoldable pub get_table_types : Exec W FlightInfo
  unfolding get_flight_info
  get_table_types = get_flight_info table_types

  unfoldable pub get_sql_info : List ℕ → Exec W FlightInfo
  unfolding get_flight_info
  get_sql_info info = get_flight_info (sql_info info)

-- The mark is set before the Flight client is closed, and stays set if that raises.
unfoldable pub close :
    {W Reader Stream Batch I : Type 0}
    → Service W Reader Stream Batch I
    → Exec (Client × W) (Unit {0})
close service (client, w) = on_world service.close (record client { closed = true }, w)
