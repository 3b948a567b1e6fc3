-- ===== src/Dbapi/Response.antt =====
-- flightsql/dbapi.py, _tables_from_info: the Arrow tables behind a metadata response.
use flightsql_dbapi.Prelude.{ℕ, Option, none, some, List, [], ◌∷◌, String}
use flightsql_dbapi.Errors.{data_error, Exn, pep, python_error, Result, ok, raised}
use flightsql_dbapi.Effects.{Exec, pure, raise, lift, ◌>>=◌}
use flightsql_dbapi.Client.Service.{Ticket, FlightInfo, TablesRequest}

-- A value of an Arrow column, as the code tells them apart: `binary` is bytes, a bytearray, a
-- memoryview or an Arrow buffer.
pub data Value : Type 0 where
  null : Value
  text : String → Value
  binary : List ℕ → Value
  other : Value

-- `values name` is `table.column(name).to_pylist()`, and `texts name` the same for the catalog and
-- schema names of GetCatalogs and GetDbSchemas, which Flight SQL declares as utf8.
pub record Table : Type 0 where
  pub column_names : List String
  pub num_rows : ℕ
  pub values : String → List Value
  pub texts : String → List (Option String)

-- What `read_all()` returns.
pub data Payload : Type 0 where
  table : Table → Payload
  not_a_table : Payload

-- The calls that metadata needs of FlightSQLClient. `read_all` is none for a reader without that
-- method.
pub record MetadataClient (W Reader : Type 0) : Type 0 where
  pub get_tables : TablesRequest → Exec W FlightInfo
  pub get_db_schemas : Option String → Exec W FlightInfo
  pub get_catalogs : Exec W FlightInfo
  pub execute : String → Exec W FlightInfo
  pub do_get : Ticket → Exec W Reader
  pub read_all : Reader → Option (Exec W Payload)

abbrev pub malformed : String → Exn
malformed message = pep data_error message none

-- `isinstance(table, pa.Table)`
unfoldable pub payload_table : Payload → Result Table
payload_table (table t) = ok t
payload_table not_a_table =
    raised (malformed "Flight SQL metadata reader returned a non-Table payload")

module _ {W Reader : Type 0} (client : MetadataClient W Reader) where
  unfoldable pub read_reader : Option (Exec W Payload) → Exec W Table
  unfolding payload_table
  read_reader none = raise (malformed "Flight SQL metadata reader has no read_all() method")
  read_reader (some read) = do payload ← read; lift (payload_table payload)

  -- One turn of the loop over the endpoints.
  unfoldable pub read_endpoint : Option Ticket → Exec W Table
  unfolding read_reader
  read_endpoint none = raise (malformed "Flight SQL metadata endpoint is missing its ticket")
  read_endpoint (some ticket) = do
    reader ← client.do_get ticket
    read_reader (client.read_all reader)

  unfoldable pub read_endpoints : List (Option Ticket) → Exec W (List Table)
  unfolding read_endpoint
  read_endpoints [] = pure []
  read_endpoints (endpoint ∷ rest) = do
    t ← read_endpoint endpoint
    ts ← read_endpoints rest
    pure (t ∷ ts)

  unfoldable pub iterate : Option (List (Option Ticket)) → Exec W (List Table)
  unfolding read_endpoints
  iterate none = raise (
      pep data_error "Flight SQL metadata response has no iterable endpoints"
        (some (python_error "endpoints")))
  iterate (some endpoints) = read_endpoints endpoints

  unfoldable pub tables_from_info : FlightInfo → Exec W (List Table)
  unfolding iterate
  tables_from_info info = iterate info.endpoints
