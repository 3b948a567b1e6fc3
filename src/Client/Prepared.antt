-- ===== src/Client/Prepared.antt =====
-- flightsql/client.py: PreparedStatement, FlightSQLClient.prepare and _read_ipc_schema.
pub mod Laws
use flightsql_dbapi.Prelude.{
  ℕ, zero, suc, Bool, true, false, Option, none, some, List, [], ◌∷◌, String, ltb, if◌then◌else◌,
}
use flightsql_dbapi.Errors.{arrow_invalid, os_error, pep, foreign, python_error, Result, ok, raised}
use flightsql_dbapi.Errors.Translate.{already_closed}
use flightsql_dbapi.Effects.{Exec, pure, raise, lift, on_world, ◌>>=◌, ◌>>◌}
use flightsql_dbapi.Client.Options.{CallOptions, FlightOptions, flight_call_options}
use flightsql_dbapi.Client.Handle.{updated_prepared_handle}
use flightsql_dbapi.Client.Service.{
  Command, prepared_statement_query, create_prepared_statement, close_prepared_statement,
  FlightInfo, Service,
}
use flightsql_dbapi.Client.Request.{Client}

pub record PreparedStatement (Schema I : Type 0) : Type 0 where
  pub options : FlightOptions I
  pub handle : List ℕ
  pub dataset_schema : Option Schema
  pub parameter_schema : Option Schema
  pub closed : Bool

-- `updated if updated else self.handle`
unfoldable pub handle_after : List ℕ → Option (List ℕ) → List ℕ
handle_after old none = old
handle_after old (some new) = new

-- `metadata.to_pybytes() if metadata is not None else b""`
unfoldable pub metadata_bytes : Option (List ℕ) → List ℕ
metadata_bytes none = []
metadata_bytes (some bytes) = bytes

module _ {W Reader Stream Batch Schema I : Type 0} (service : Service W Reader Stream Batch I) where
  unfoldable pub set_handle : List ℕ → Exec (PreparedStatement Schema I × W) (Unit {0})
  set_handle handle (stmt, w) = (ok tt, (record stmt { handle = handle }, w))

  -- `self.client.get_flight_info(desc, self.options)`, for the handle that the object has now.
  unfoldable pub run : Exec (PreparedStatement Schema I × W) FlightInfo
  run (stmt, w) =
      on_world (service.get_flight_info (prepared_statement_query stmt.handle) stmt.options)
        (stmt, w)

  -- The calls on the writer and the reader of DoPut, in order.
  unfoldable pub put_binding : PreparedStatement Schema I → Batch → Exec W (Option (List ℕ))
  put_binding stmt binding = do
    stream ← service.do_put (prepared_statement_query stmt.handle) (some binding) stmt.options
    service.write stream binding
    service.done_writing stream
    metadata ← service.read_metadata stream
    service.close_writer stream
    pure metadata

  unfoldable pub bind :
      PreparedStatement Schema I → Batch → Exec (PreparedStatement Schema I × W) (Unit {0})
  unfolding put_binding set_handle handle_after metadata_bytes
  bind stmt binding = do
    metadata ← on_world (put_binding stmt binding)
    set_handle (handle_after stmt.handle (updated_prepared_handle (metadata_bytes metadata)))

  -- `if binding is not None and binding.num_rows > 0`
  unfoldable pub execute_binding :
      (Batch → ℕ)
      → PreparedStatement Schema I
      → Option Batch
      → Exec (PreparedStatement Schema I × W) FlightInfo
  unfolding run bind
  execute_binding num_rows stmt none = run
  execute_binding num_rows stmt (some batch) =
      if ltb 0 (num_rows batch) then bind stmt batch >> run else run

  unfoldable pub execute :
      (Batch → ℕ) → Option Batch → Exec (PreparedStatement Schema I × W) FlightInfo
  unfolding execute_binding
  execute num_rows binding (stmt, w) =
      if stmt.closed
      then raise (already_closed "PreparedStatement") (stmt, w)
      else execute_binding num_rows stmt binding (stmt, w)

  -- The statement is marked as closed only if the action does not raise.
  unfoldable pub mark_closed : List (List ℕ) → Exec (PreparedStatement Schema I × W) (Unit {0})
  mark_closed results (stmt, w) = (ok tt, (record stmt { closed = true }, w))

  unfoldable pub close : Exec (PreparedStatement Schema I × W) (Unit {0})
  unfolding mark_closed
  close (stmt, w) =
      if stmt.closed
      then raise (already_closed "PreparedStatement") (stmt, w)
      else (on_world (service.do_action (close_prepared_statement stmt.handle) stmt.options)
            >>= mark_closed)
          (stmt, w)

-- ActionCreatePreparedStatementResult; an absent field is empty.
pub record PreparedResult : Type 0 where
  pub prepared_statement_handle : List ℕ
  pub dataset_schema : List ℕ
  pub parameter_schema : List ℕ

-- The `except (pa.ArrowInvalid, OSError)` of `_read_ipc_schema`.
unfoldable pub decoded_schema : {Schema : Type 0} → Result Schema → Result (Option Schema)
decoded_schema (ok schema) = ok (some schema)
decoded_schema (raised (pep c m k)) = raised (pep c m k)
decoded_schema (raised (foreign e)) =
    if e.is_instance arrow_invalid
    then ok none
    else if e.is_instance os_error
    then ok none
    else raised (foreign e)

-- `read_schema` is pyarrow's.
unfoldable pub read_ipc_schema :
    {Schema : Type 0} → (List ℕ → Result Schema) → List ℕ → Result (Option Schema)
unfolding decoded_schema
read_ipc_schema read_schema [] = ok none
read_ipc_schema read_schema (b ∷ bs) = decoded_schema (read_schema (b ∷ bs))

-- `flight_results[0]`
unfoldable pub first_body : List (List ℕ) → Result (List ℕ)
first_body [] = raised (foreign (python_error "list index out of range"))
first_body (body ∷ rest) = ok body

-- `decode` is the protobuf library's: the first result's body as a PreparedResult.
unfoldable pub prepare :
    {W Reader Stream Batch Schema I : Type 0}
    → Service W Reader Stream Batch I
    → (List ℕ → Result PreparedResult)
    → (List ℕ → Result Schema)
    → Client
    → Option (CallOptions I)
    → String
    → Exec W (PreparedStatement Schema I)
unfolding read_ipc_schema first_body
prepare {Schema = Schema} {I = I} service decode read_schema client call_options query = do
  let options = flight_call_options client.headers call_options
  results ← service.do_action (create_prepared_statement query) options
  body ← lift (first_body results)
  result ← lift (decode body)
  dataset ← lift (read_ipc_schema read_schema result.dataset_schema)
  parameters ← lift (read_ipc_schema read_schema result.parameter_schema)
  pure (record {
    options = options;
    handle = result.prepared_statement_handle;
    dataset_schema = dataset;
    parameter_schema = parameters;
    closed = false;
  })
