-- ===== src/Client/Options.antt =====
-- flightsql/client.py: FlightSQLCallOptions and FlightSQLClient._flight_call_options.
pub mod Laws
use flightsql_dbapi.Prelude.{ℕ, Option, none, some, List, [], ◌++◌, String, bytes_eq}
use flightsql_dbapi.Prelude.Dict.{update}

abbrev pub Header : Type 0
Header = List ℕ × List ℕ

-- The timeout and the IPC options pass through unread: `I` is the type of their values.
pub record CallOptions (I : Type 0) : Type 0 where
  pub timeout : Option I
  pub headers : Option (List Header)
  pub write_options : Option I
  pub read_options : Option I

-- `flight.FlightCallOptions(...)`, which the RPCs are called with.
pub record FlightOptions (I : Type 0) : Type 0 where
  pub timeout : Option I
  pub headers : List Header
  pub read_options : Option I
  pub write_options : Option I

unfoldable pub joined_headers : List Header → Option (List Header) → List Header
joined_headers own none = own
joined_headers own (some more) = own ++ more

-- `list(OrderedDict(headers).items())`
unfoldable pub deduplicated : List Header → List Header
unfolding update bytes_eq
deduplicated headers = update [] headers

unfoldable pub flight_call_options :
    {I : Type 0} → List Header → Option (CallOptions I) → FlightOptions I
unfolding joined_headers deduplicated
flight_call_options own none = record {
  timeout = none;
  headers = own;
  read_options = none;
  write_options = none;
}
flight_call_options own (some options) = record {
  timeout = options.timeout;
  headers = deduplicated (joined_headers own options.headers);
  read_options = options.read_options;
  write_options = options.write_options;
}
