-- ===== src/Dbapi/Cursor.antt =====
-- flightsql/dbapi.py, Cursor. A row is a value of type R.
pub mod Fetch
pub mod Execution
use flightsql_dbapi.Prelude.{
  ℕ, zero, suc, Bool, true, false, Option, none, some, List, [], ◌∷◌, String, length, take, drop,
  if◌then◌else◌, eqb,
}
use flightsql_dbapi.Errors.{Exn, foreign, python_error, Result, ok, raised}
use flightsql_dbapi.Errors.Translate.{already_closed}
use flightsql_dbapi.Effects.{
  Exec, pure, raise, lift, on_world, translating, check_closed, using, around, ◌>>=◌, ◌>>◌,
}
use flightsql_dbapi.Client.Service.{Ticket, FlightInfo}

-- `description` is a list of column descriptions of type D. The results are always a list, so
-- `check_result` never raises.
pub record Cursor (R D : Type 0) : Type 0 where
  pub arraysize : ℕ
  pub closed : Bool
  pub description : Option (List D)
  pub results : List R

abbrev pub new_cursor : {R D : Type 0} → Cursor R D
new_cursor = record { arraysize = 1; closed = false; description = none; results = [] }

-- `self._results.pop(0)`, and None for an IndexError.
unfoldable pub pop_first : {R : Type 0} → List R → Option R × List R
pop_first [] = (none, [])
pop_first (row ∷ rows) = (some row, rows)

-- `size or self.arraysize`
unfoldable pub size_or : Option ℕ → ℕ → ℕ
size_or none default = default
size_or (some zero) default = default
size_or (some (suc n)) default = suc n

module _ {R D : Type 0} where
  -- `@check_result` and `@check_closed` around a method that returns the new object and a value.
  abbrev pub method : {A : Type 0} → (Cursor R D → A × Cursor R D) → Exec (Cursor R D) A
  method body c =
      if c.closed then (raised (already_closed "Cursor"), c) else (ok (body c).0, (body c).1)

  unfoldable pub fetchone : Exec (Cursor R D) (Option R)
  unfolding pop_first
  fetchone = method λ c. ((pop_first c.results).0, record c { results = (pop_first c.results).1 })

  unfoldable pub fetchmany : Option ℕ → Exec (Cursor R D) (List R)
  unfolding size_or
  fetchmany size = method λ c. (
    take (size_or size c.arraysize) c.results,
    record c { results = drop (size_or size c.arraysize) c.results },
  )

  unfoldable pub fetchall : Exec (Cursor R D) (List R)
  fetchall = method λ c. (c.results, record c { results = [] })

  unfoldable pub rowcount : Exec (Cursor R D) ℕ
  rowcount = method λ c. (length c.results, c)

  unfoldable pub close : Exec (Cursor R D) (Unit {0})
  close = method λ c. (tt, record c { closed = true })

-- `info.endpoints[0].ticket`. An absent attribute or an empty list raises.
unfoldable pub first_of : Option (List (Option Ticket)) → Result Ticket
first_of none = raised (foreign (python_error "no attribute 'endpoints'"))
first_of (some []) = raised (foreign (python_error "list index out of range"))
first_of (some (none ∷ rest)) = raised (foreign (python_error "no attribute 'ticket'"))
first_of (some (some ticket ∷ rest)) = ok ticket

unfoldable pub first_ticket : FlightInfo → Result Ticket
unfolding first_of
first_ticket info = first_of info.endpoints

-- What the cursor calls: the client of flightsql/client.py, with prepared statements of type `S`,
-- and the conversions of flightsql/dbapi.py. A parameter is a value of type `V`, a stream that
-- has been read an Arrow table of type `T`.
pub record CursorClient (W V S Batch T R D : Type 0) : Type 0 where
  pub execute : String → Exec W FlightInfo
  pub read : Ticket → Exec W T
  pub prepare : String → Exec W S
  pub build_parameter_record : List V → S → Result Batch
  pub run : Batch → Exec (S × W) FlightInfo
  pub close_statement : Exec (S × W) (Unit {0})
  pub dbapi_results : T → Result (List R × List D)

-- `params or ()`
unfoldable pub params_or_empty : {V : Type 0} → Option (List V) → List V
params_or_empty none = []
params_or_empty (some values) = values

module _ {W V S Batch T R D : Type 0} (client : CursorClient W V S Batch T R D) where
  -- `self.description = None; self._results = []`
  unfoldable pub reset : Cursor R D → Cursor R D
  reset c = record c { description = none; results = [] }

  unfoldable pub store_results : List R × List D → Exec (Cursor R D × W) (Unit {0})
  store_results (rows, columns) (c, w) =
      (ok tt, (record c { description = some columns; results = rows }, w))

  unfoldable pub read_info : FlightInfo → Exec W T
  unfolding first_ticket
  read_info info = do ticket ← lift (first_ticket info); client.read ticket

  unfoldable pub execute_direct : String → Exec (Cursor R D × W) (Unit {0})
  unfolding read_info store_results
  execute_direct query = do
    table ← on_world (do info ← client.execute query; read_info info)
    found ← lift (client.dbapi_results table)
    store_results found

  -- One turn with the prepared statement: bind, run and read.
  unfoldable pub run_statement : List V → Exec (S × W) T
  unfolding read_info
  run_statement values (s, w) =
      (do
        batch ← lift (client.build_parameter_record values s)
        info ← client.run batch
        on_world (read_info info))
        (s, w)

  unfoldable pub prepared_body : List V → Exec (S × (Cursor R D × W)) (Unit {0})
  unfolding run_statement store_results
  prepared_body values = do
    table ← around (run_statement values)
    found ← lift (client.dbapi_results table)
    on_world (store_results found)

  unfoldable pub execute_prepared : String → List V → Exec (Cursor R D × W) (Unit {0})
  unfolding prepared_body
  execute_prepared query values =
      using (on_world (client.prepare query)) (prepared_body values) (around client.close_statement)

  -- `params is None or len(params) == 0`
  unfoldable pub execute_body : String → List V → Exec (Cursor R D × W) (Unit {0})
  unfolding execute_direct execute_prepared
  execute_body query [] = execute_direct query
  execute_body query (v ∷ vs) = execute_prepared query (v ∷ vs)

  unfoldable pub when_open : Exec (Cursor R D × W) (Unit {0}) → Exec (Cursor R D × W) (Unit {0})
  when_open body (c, w) =
      if c.closed then raise (already_closed "Cursor") (c, w) else translating body (reset c, w)

  unfoldable pub execute : String → Option (List V) → Exec (Cursor R D × W) (Unit {0})
  unfolding execute_body when_open params_or_empty reset
  execute query params = when_open (execute_body query (params_or_empty params))

  unfoldable pub each_params : List (Option (List V)) → Exec (S × W) (Unit {0})
  unfolding run_statement params_or_empty
  each_params [] = pure tt
  each_params (params ∷ rest) = run_statement (params_or_empty params) >> each_params rest

  -- `param_seq` is empty where it is None.
  unfoldable pub executemany_body :
      String → List (Option (List V)) → Exec (Cursor R D × W) (Unit {0})
  unfolding execute each_params
  executemany_body query [] = execute query none
  executemany_body query (params ∷ rest) =
      using (on_world (client.prepare query)) (around (each_params (params ∷ rest)))
        (around client.close_statement)

  unfoldable pub executemany : String → List (Option (List V)) → Exec (Cursor R D × W) (Unit {0})
  unfolding executemany_body when_open reset
  executemany query seq = when_open (executemany_body query seq)
