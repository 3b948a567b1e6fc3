-- ===== src/Tests/Client.antt =====
-- FlightSQLClient and PreparedStatement against a service that answers every call.
use flightsql_dbapi.Prelude.{
  ℕ, ◌+◌, ◌≡◌, refl, true, false, Option, none, some, List, [], ◌∷◌, arith,
}
use flightsql_dbapi.Errors.{ok, raised}
use flightsql_dbapi.Effects.{on_world}
use flightsql_dbapi.Prelude.{bytes_eq}
use flightsql_dbapi.Prelude.Dict.{last_value, NodupKeys}
use flightsql_dbapi.Client.Wire.RoundTrip.{message}
use flightsql_dbapi.Client.Handle.Carried.{bare_handle}
use flightsql_dbapi.Client.Options.{CallOptions, Header, flight_call_options}
use flightsql_dbapi.Client.Options.Laws.{sent_header, flight_call_options_override}
use flightsql_dbapi.Client.Service.{Command, prepared_statement_query, Service}
use flightsql_dbapi.Client.Request.{Client, execute as client_execute, close as close_client}
use flightsql_dbapi.Client.Request.Laws.{Refuses, close-Refuses}
use flightsql_dbapi.Client.Prepared.{PreparedStatement, put_binding, execute, close}
use flightsql_dbapi.Client.Prepared.Laws.{execute-updated, execute-kept}
use flightsql_dbapi.Client.Connect.{
  Arguments, Connector, absent, flag, exclusive_error, create_flight_client,
}
use flightsql_dbapi.Client.Connect.Laws.{
  Opened, create_flight_client_exclusive, create_flight_client_ok,
}
use flightsql_dbapi.Tests.Wire.{bare, first_of_bare, no_prefix}

-- The state is the commands sent so far; the answer to DoPut is `metadata`.
abbrev answering : Option (List ℕ) → Service (List Command) (Unit {0}) (Unit {0}) ℕ ℕ
answering metadata = record {
  get_flight_info =
      λ command options w. (ok (record { endpoints = some (some [] ∷ []) }), command ∷ w);
  do_get = λ ticket options w. (ok tt, w);
  do_put = λ command schema options w. (ok tt, command ∷ w);
  write = λ stream batch w. (ok tt, w);
  done_writing = λ stream w. (ok tt, w);
  read_metadata = λ stream w. (ok metadata, w);
  close_writer = λ stream w. (ok tt, w);
  do_action = λ action options w. (ok [], w);
  close = λ w. (ok tt, w);
}

abbrev prepared : PreparedStatement ℕ ℕ
prepared = record {
  options = record { timeout = none; headers = []; read_options = none; write_options = none };
  handle = 1 ∷ [];
  dataset_schema = none;
  parameter_schema = none;
  closed = false;
}

abbrev put_command : Command
put_command = prepared_statement_query (1 ∷ [])

put_answered :
    (metadata : Option (List ℕ))
    → put_binding (answering metadata) prepared 2 [] ≡ (ok metadata, put_command ∷ [])
unfolding put_binding
put_answered metadata = refl

-- A batch is its number of rows.
execute-updated_example :
    execute (answering (some (message bare))) (λ n. n) (some 2) (prepared, [])
    ≡ on_world
        ((answering (some (message bare))).get_flight_info
          (prepared_statement_query (7 ∷ 8 ∷ []))
          prepared.options)
        (record prepared { handle = 7 ∷ 8 ∷ [] }, put_command ∷ [])
execute-updated_example =
    execute-updated (answering (some (message bare))) (λ n. n) prepared [] 2 bare (7 ∷ 8 ∷ [])
      (put_command ∷ []) refl (omega arith) (put_answered (some (message bare))) (omega arith)
      (bare_handle first_of_bare (λ e. cc) no_prefix)

execute-kept_example :
    execute (answering none) (λ n. n) (some 2) (prepared, [])
    ≡ on_world
        ((answering none).get_flight_info put_command prepared.options)
        (prepared, put_command ∷ [])
execute-kept_example =
    execute-kept (answering none) (λ n. n) prepared [] 2 (put_command ∷ []) refl (omega arith)
      (put_answered none)

abbrev shut : PreparedStatement ℕ ℕ
shut = record prepared { closed = true }

close_prepared : close (answering none) (prepared, []) ≡ (ok tt, (shut, []))
unfolding close
close_prepared = refl

abbrev client : Client
client = record { headers = []; features = []; closed = false }

close-Refuses_example : Refuses (
    client_execute
      (answering none)
      (close_client (answering none) (client, [])).1.0
      none
      "SELECT 1")
close-Refuses_example = close-Refuses (answering none) none client [] "SELECT 1"

abbrev own : List Header
own = (1 ∷ [], 2 ∷ []) ∷ (3 ∷ [], 4 ∷ []) ∷ []

abbrev per_call : CallOptions ℕ
per_call = record {
  timeout = none;
  headers = some ((1 ∷ [], 5 ∷ []) ∷ []);
  write_options = none;
  read_options = none;
}

abbrev key : List ℕ
key = 1 ∷ []

abbrev more : List Header
more = (1 ∷ [], 5 ∷ []) ∷ []

flight_call_options_override_example :
    (sent_header key (flight_call_options own (some per_call))
      ≡ last_value key more (last_value key own none))
    × NodupKeys (flight_call_options own (some per_call)).headers
flight_call_options_override_example = flight_call_options_override own per_call more refl key

abbrev connector : Connector ℕ ℕ
connector = record {
  connect = λ location skip w. (ok 9, w + 1);
  authenticate_basic_token = λ c user password w. (ok ([], []), w);
  utf8 = λ text. [];
}

abbrev arguments : Arguments
arguments = record {
  host = "localhost";
  port = 443;
  user = none;
  password = none;
  token = none;
  insecure = flag true;
  disable_server_verification = flag true;
  metadata = [];
}

abbrev plain : Arguments
plain = record arguments { disable_server_verification = absent }

create_plain : create_flight_client connector plain 0 ≡ (ok (9, []), 1)
unfolding create_flight_client
create_plain = refl

create_flight_client_exclusive_example :
    create_flight_client connector arguments 0 ≡ (raised exclusive_error, 0)
create_flight_client_exclusive_example =
    create_flight_client_exclusive connector arguments 0 refl refl

create_flight_client_ok_example : Opened connector plain 0 9 [] 1
create_flight_client_ok_example = create_flight_client_ok connector plain 0 9 [] 1 create_plain
