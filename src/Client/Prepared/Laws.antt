-- ===== src/Client/Prepared/Laws.antt =====
-- flightsql/client.py, PreparedStatement: what a statement runs and closes.
use flightsql_dbapi.Prelude.{
  ℕ, ◌≡◌, refl, ◌<◌, false, Option, none, some, List, All, arith, nat_eq, lt→ltb,
}
use flightsql_dbapi.Errors.{ok, raised}
use flightsql_dbapi.Errors.Translate.{already_closed}
use flightsql_dbapi.Effects.{on_world}
use flightsql_dbapi.Client.Wire.RoundTrip.{Field, message, Fits}
use flightsql_dbapi.Client.Handle.{updated_prepared_handle}
use flightsql_dbapi.Client.Handle.Carried.{Carried, updated-Carried}
use flightsql_dbapi.Client.Service.{prepared_statement_query, Service}
use flightsql_dbapi.Client.Prepared.{
  PreparedStatement, handle_after, metadata_bytes, run, put_binding, bind, execute_binding, execute,
  mark_closed, close,
}

module _ {W Reader Stream Batch Schema I : Type 0} (service : Service W Reader Stream Batch I)
    (num_rows : Batch → ℕ) (stmt : PreparedStatement Schema I) (w : W) where
  execute-put :
      (batch : Batch) (metadata : Option (List ℕ)) (w' : W) (handle : List ℕ)
      → stmt.closed ≡ false
      → 0 < num_rows batch
      → put_binding service stmt batch w ≡ (ok metadata, w')
      → handle_after stmt.handle (updated_prepared_handle (metadata_bytes metadata)) ≡ handle
      → execute service num_rows (some batch) (stmt, w)
        ≡ on_world
            (service.get_flight_info (prepared_statement_query handle) stmt.options)
            (record stmt { handle = handle }, w')
  unfolding execute execute_binding bind run
  execute-put batch metadata w' handle is_open rows put new =
      rw (is_open, lt→ltb 0 (num_rows batch) rows, put, new) refl

  -- An open statement whose binding has rows, where the server answers DoPut with a well-formed
  -- result that carries a handle, bare or wrapped in an Any, runs that handle and no other, and it is
  -- the handle that a later `close` sends.
  pub execute-updated :
      (batch : Batch) (fs : List Field) (handle : List ℕ) (w' : W)
      → stmt.closed ≡ false
      → 0 < num_rows batch
      → put_binding service stmt batch w ≡ (ok (some (message fs)), w')
      → All Fits fs
      → Carried fs handle
      → execute service num_rows (some batch) (stmt, w)
        ≡ on_world
            (service.get_flight_info (prepared_statement_query handle) stmt.options)
            (record stmt { handle = handle }, w')
  unfolding handle_after metadata_bytes
  execute-updated batch fs handle w' is_open rows put fits carried =
      execute-put batch (some (message fs)) w' handle is_open rows put
        (rw ((updated-Carried fs handle fits).1 carried))

  -- Where the server sends no metadata, the statement keeps its handle and runs it.
  pub execute-kept :
      (batch : Batch) (w' : W)
      → stmt.closed ≡ false
      → 0 < num_rows batch
      → put_binding service stmt batch w ≡ (ok none, w')
      → execute service num_rows (some batch) (stmt, w)
        ≡ on_world
            (service.get_flight_info (prepared_statement_query stmt.handle) stmt.options)
            (stmt, w')
  unfolding handle_after metadata_bytes updated_prepared_handle
  execute-kept batch w' is_open rows put =
      execute-put batch none w' stmt.handle is_open rows put refl

-- After a close that did not raise, `execute` and `close` raise with any binding, and neither the
-- statement nor anything behind the Flight client changes.
pub close-closes :
    {W Reader Stream Batch Schema I : Type 0} (service : Service W Reader Stream Batch I)
    (num_rows : Batch → ℕ) (binding : Option Batch) (s s' : PreparedStatement Schema I × W)
    → close service s ≡ (ok tt, s')
    → (execute service num_rows binding s' ≡ (raised (already_closed "PreparedStatement"), s'))
      × (close service s' ≡ (raised (already_closed "PreparedStatement"), s'))
unfolding close execute mark_closed
close-closes service num_rows binding (stmt, w) (stmt', w') e = ground arith
