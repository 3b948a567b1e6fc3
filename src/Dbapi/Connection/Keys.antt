-- ===== src/Dbapi/Connection/Keys.antt =====
-- flightsql/dbapi.py, Connection: flightsql_get_sql_info and the methods for keys, which read the
-- first endpoint only.
use flightsql_dbapi.Prelude.{ℕ, Option, none, some, List, [], ◌∷◌, String}
use flightsql_dbapi.Prelude.Dict.{Dict, update}
use flightsql_dbapi.Prelude.Tests.{nat_eq}
use flightsql_dbapi.Errors.{foreign, python_error, Result, ok, raised}
use flightsql_dbapi.Effects.{Exec, pure, lift, ◌>>=◌}
use flightsql_dbapi.Client.Service.{Ticket, FlightInfo, TableRef}

-- The calls of FlightSQLClient, and `reader.read_all().to_pylist()` for rows of a kind.
pub record KeyClient (W Reader Row : Type 0) : Type 0 where
  pub get_sql_info : List ℕ → Exec W FlightInfo
  pub get_primary_keys : TableRef → Exec W FlightInfo
  pub get_imported_keys : TableRef → Exec W FlightInfo
  pub do_get : Ticket → Exec W Reader
  pub rows : Reader → Exec W (List Row)

-- `info.endpoints[0].ticket`
unfoldable pub first_ticket : Option (List (Option Ticket)) → Result Ticket
first_ticket none = raised (foreign (python_error "TypeError: endpoints"))
first_ticket (some []) = raised (foreign (python_error "IndexError: list index out of range"))
first_ticket (some (none ∷ endpoints)) = raised (foreign (python_error "AttributeError: ticket"))
first_ticket (some (some ticket ∷ endpoints)) = ok ticket

abbrev pub table_ref : String → Option String → TableRef
table_ref table schema = record { catalog = none; db_schema = schema; table = table }

module _ {W Reader Row : Type 0} (client : KeyClient W Reader Row) where
  unfoldable pub first_rows : FlightInfo → Exec W (List Row)
  unfolding first_ticket
  first_rows info = do
    ticket ← lift (first_ticket info.endpoints)
    reader ← client.do_get ticket
    client.rows reader

  unfoldable pub primary_keys_body : String → Option String → Exec W (List Row)
  unfolding first_rows
  primary_keys_body table schema = do
    info ← client.get_primary_keys (table_ref table schema)
    first_rows info

  unfoldable pub foreign_keys_body : String → Option String → Exec W (List Row)
  unfolding first_rows
  foreign_keys_body table schema = do
    info ← client.get_imported_keys (table_ref table schema)
    first_rows info

-- A row of GetSqlInfo: the columns `info_name` and `value`, where they are there.
abbrev pub InfoRow : Type 0 → Type 0
InfoRow V = Option ℕ × Option V

abbrev pub key_error : {A : Type 0} → Option A → Result A
key_error none = raised (foreign (python_error "KeyError"))
key_error (some a) = ok a

unfoldable pub info_pairs : {W V : Type 0} → List (InfoRow V) → Exec W (List (ℕ × V))
info_pairs [] = pure []
info_pairs ((name, value) ∷ rows) = do
  n ← lift (key_error name)
  v ← lift (key_error value)
  rest ← info_pairs rows
  pure ((n, v) ∷ rest)

module _ {W Reader V : Type 0} where
  -- `{v["info_name"]: v["value"] for v in values}`
  unfoldable pub sql_info_body : KeyClient W Reader (InfoRow V) → List ℕ → Exec W (Dict ℕ V)
  unfolding first_rows info_pairs update nat_eq
  sql_info_body client names = do
    info ← client.get_sql_info names
    rows ← first_rows client info
    pairs ← info_pairs rows
    pure (update [] pairs)
