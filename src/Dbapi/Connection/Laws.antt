-- ===== src/Dbapi/Connection/Laws.antt =====
-- flightsql/dbapi.py, Connection.close and the methods after it.
use flightsql_dbapi.Prelude.{◌≡◌, true, All}
use flightsql_dbapi.Errors.{raised}
use flightsql_dbapi.Errors.Translate.{already_closed}
use flightsql_dbapi.Effects.{Exec}
use flightsql_dbapi.Dbapi.Cursor.{Cursor}
use flightsql_dbapi.Dbapi.Connection.{Connection}

abbrev pub Refused : {S A : Type 0} → Exec S A → S → Type 0
Refused m s = m s ≡ (raised (already_closed "Connection"), s)

module _ {R D : Type 0} where
  abbrev pub Closed : Connection R D → Type 0
  Closed conn = (conn.closed ≡ true) × All (λ (c : Cursor R D). c.closed ≡ true) conn.cursors
