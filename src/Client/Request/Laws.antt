-- ===== src/Client/Request/Laws.antt =====
-- flightsql/client.py, FlightSQLClient: the requests on a closed client.
use flightsql_dbapi.Prelude.{ℕ, ◌≡◌, refl, true, Option, List, String}
use flightsql_dbapi.Errors.{Result, raised}
use flightsql_dbapi.Errors.Translate.{already_closed}
use flightsql_dbapi.Effects.{Exec}
use flightsql_dbapi.Client.Options.{CallOptions}
use flightsql_dbapi.Client.Service.{TableRef, TablesRequest, Ticket, Service}
use flightsql_dbapi.Client.Request.{
  Client, do_get, execute, execute_update, get_tables, get_db_schemas, get_catalogs,
  get_primary_keys, get_exported_keys, get_imported_keys, get_cross_reference, get_xdbc_type_info,
  get_table_types, get_sql_info, close,
}

abbrev pub Refuses : {W A : Type 0} → Exec W A → Type 0
Refuses {W} m = (w : W) → m w ≡ (raised (already_closed "FlightSQLClient"), w)

module _ {W Reader Stream Batch I : Type 0} (service : Service W Reader Stream Batch I)
    (call_options : Option (CallOptions I)) (client : Client) where
  -- What each request does on a client, told by its outcome alone.
  abbrev pub RefusesAll : Type 0
  RefusesAll =
      ((query : String) → Refuses (execute service client call_options query))
      × ((count : List ℕ → Result ℕ) (query : String)
          → Refuses (execute_update service client call_options count query))
      × ((ticket : Ticket) → Refuses (do_get service client call_options ticket))
      × ((request : TablesRequest) → Refuses (get_tables service client call_options request))
      × ((catalog pattern : Option String)
          → Refuses (get_db_schemas service client call_options catalog pattern))
      × Refuses (get_catalogs service client call_options)
      × ((table : TableRef)
          → Refuses (get_primary_keys service client call_options table)
            × Refuses (get_exported_keys service client call_options table)
            × Refuses (get_imported_keys service client call_options table))
      × ((pk fk : TableRef) → Refuses (get_cross_reference service client call_options pk fk))
      × ((data_type : Option ℕ)
          → Refuses (get_xdbc_type_info service client call_options data_type))
      × Refuses (get_table_types service client call_options)
      × ((info : List ℕ) → Refuses (get_sql_info service client call_options info))

  -- On a closed client a query, an update, each metadata request and DoGet raise `Error`, and
  -- nothing reaches the Flight client.
  pub requests_refused : client.closed ≡ true → RefusesAll
  unfolding execute execute_update do_get get_tables get_db_schemas get_catalogs get_primary_keys
      get_exported_keys get_imported_keys get_cross_reference get_xdbc_type_info get_table_types
      get_sql_info
  requests_refused shut = (
    λ query w. rw shut,
    λ count query w. rw shut,
    λ ticket w. rw shut,
    λ request w. rw shut,
    λ catalog pattern w. rw shut,
    λ w. rw shut,
    λ table. (λ w. rw shut, λ w. rw shut, λ w. rw shut),
    λ pk fk w. rw shut,
    λ data_type w. rw shut,
    λ w. rw shut,
    λ info w. rw shut,
  )

-- `close` leaves the client closed whether or not closing the Flight client raises, so every
-- later query is refused.
pub close-Refuses :
    {W Reader Stream Batch I : Type 0} (service : Service W Reader Stream Batch I)
    (call_options : Option (CallOptions I)) (client : Client) (w : W) (query : String)
    → Refuses (execute service (close service (client, w)).1.0 call_options query)
unfolding execute close
close-Refuses service call_options client w query w' = refl
