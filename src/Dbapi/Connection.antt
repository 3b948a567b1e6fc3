-- ===== src/Dbapi/Connection.antt =====
-- flightsql/dbapi.py, Connection: its cursors and its life.
pub mod Laws
pub mod Keys
pub mod Metadata
pub mod Names
use flightsql_dbapi.Prelude.{
  ℕ, Bool, true, false, Option, none, some, List, [], ◌∷◌, ◌++◌, String, if◌then◌else◌,
}
use flightsql_dbapi.Errors.{Result, ok, raised}
use flightsql_dbapi.Errors.Translate.{already_closed}
use flightsql_dbapi.Effects.{Exec, raise}
use flightsql_dbapi.Dbapi.Catalog.{Scope}
use flightsql_dbapi.Dbapi.Cursor.{Cursor, CursorClient, new_cursor, execute, executemany}

-- `cursors` holds every cursor that the connection made, the newest last; a caller's cursor is
-- one of these objects. `scope` is the configured and the resolved catalog.
pub record Connection (R D : Type 0) : Type 0 where
  pub closed : Bool
  pub scope : Scope
  pub cursors : List (Cursor R D)

abbrev pub new_connection : {R D : Type 0} → Option String → Connection R D
new_connection catalog = record {
  closed = false;
  scope = record { catalog = catalog; resolved = none };
  cursors = [];
}

module _ {R D : Type 0} where
  -- `cursor.close()` on an open cursor, and nothing on a closed one.
  unfoldable pub close_cursor : Cursor R D → Cursor R D
  close_cursor c = if c.closed then c else record c { closed = true }

  unfoldable pub close_cursors : List (Cursor R D) → List (Cursor R D)
  unfolding close_cursor
  close_cursors [] = []
  close_cursors (c ∷ cs) = close_cursor c ∷ close_cursors cs

  -- `@check_closed` on the methods of the connection.
  abbrev pub unless_closed :
      {A W : Type 0} → Exec (Connection R D × W) A → Exec (Connection R D × W) A
  unless_closed body (conn, w) =
      if conn.closed then raise (already_closed "Connection") (conn, w) else body (conn, w)

  unfoldable pub mark_closed : {W : Type 0} → Exec (Connection R D × W) (Unit {0})
  unfolding close_cursors
  mark_closed (conn, w) =
      (ok tt, (record conn { closed = true; cursors = close_cursors conn.cursors }, w))

  unfoldable pub close : {W : Type 0} → Exec (Connection R D × W) (Unit {0})
  unfolding mark_closed
  close = unless_closed mark_closed

  -- `commit` and `rollback` do nothing on an open connection.
  unfoldable pub commit : {W : Type 0} → Exec (Connection R D × W) (Unit {0})
  commit = unless_closed (λ s. (ok tt, s))

  unfoldable pub rollback : {W : Type 0} → Exec (Connection R D × W) (Unit {0})
  rollback = unless_closed (λ s. (ok tt, s))

  -- A new cursor, with a first action on it: it is kept also if the action raises.
  unfoldable pub with_new_cursor :
      {W : Type 0} → Exec (Cursor R D × W) (Unit {0}) → Exec (Connection R D × W) (Unit {0})
  with_new_cursor action (conn, w) =
      let (r, (c, w')) = action (new_cursor, w) in
      (r, (record conn { cursors = conn.cursors ++ (c ∷ []) }, w'))

  unfoldable pub cursor : {W : Type 0} → Exec (Connection R D × W) (Unit {0})
  unfolding with_new_cursor
  cursor = unless_closed (with_new_cursor (λ s. (ok tt, s)))

module _ {W V S Batch T R D : Type 0} (client : CursorClient W V S Batch T R D) where
  unfoldable pub connection_execute :
      String → Option (List V) → Exec (Connection R D × W) (Unit {0})
  unfolding with_new_cursor execute
  connection_execute query params = unless_closed (with_new_cursor (execute client query params))

  unfoldable pub connection_executemany :
      String → List (Option (List V)) → Exec (Connection R D × W) (Unit {0})
  unfolding with_new_cursor executemany
  connection_executemany query seq = unless_closed (with_new_cursor (executemany client query seq))
