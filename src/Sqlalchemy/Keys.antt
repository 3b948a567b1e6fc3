-- ===== src/Sqlalchemy/Keys.antt =====
-- flightsql/sqlalchemy.py, FlightSQLDialect.get_pk_constraint.
use flightsql_dbapi.Prelude.{
  Bool, Option, none, some, List, [], ◌∷◌, String, ◌==◌, option_eq, bytes_eq, if◌then◌else◌,
}
use flightsql_dbapi.Prelude.Dict.{Dict, lookup}
use flightsql_dbapi.Prelude.Text.{codes}
use flightsql_dbapi.Effects.{Exec, pure, lift, ◌>>=◌}
use flightsql_dbapi.Sqlalchemy.Url.{Text}
use flightsql_dbapi.Dbapi.Response.{Value}
use flightsql_dbapi.Dbapi.Connection.Keys.{key_error}

-- A row of GetPrimaryKeys: the columns `column_name` and `key_name`, where they are there.
abbrev KeyRow : Type 0
KeyRow = Option Value × Option Value

-- The dictionary that is returned: `constrained_columns` and `name`.
pub record PkConstraint : Type 0 where
  pub constrained_columns : List Value
  pub name : Option Value

abbrev no_key : PkConstraint
no_key = record { constrained_columns = []; name = none }

-- `features.get("sqlalchemy-primary-keys") == "on"`
unfoldable pub uses_primary_keys : Dict Text Text → Bool
unfolding lookup bytes_eq option_eq
uses_primary_keys features = lookup (codes "sqlalchemy-primary-keys") features == some (codes "on")

module _ {W : Type 0} where
  unfoldable pub key_columns : List KeyRow → Exec W (List Value)
  key_columns [] = pure []
  key_columns ((column, key) ∷ rows) = do
    c ← lift (key_error column)
    rest ← key_columns rows
    pure (c ∷ rest)

  unfoldable pub constraint_of : List KeyRow → Exec W PkConstraint
  unfolding key_columns
  constraint_of [] = pure no_key
  constraint_of ((column, key) ∷ rows) = do
    columns ← key_columns ((column, key) ∷ rows)
    name ← lift (key_error key)
    pure (record { constrained_columns = columns; name = some name })

  -- `get_primary_keys` is the connection's flightsql_get_primary_keys.
  unfoldable pub get_pk_constraint :
      Dict Text Text
      → (String → Option String → Exec W (List KeyRow))
      → String
      → Option String
      → Exec W PkConstraint
  unfolding uses_primary_keys constraint_of
  get_pk_constraint features get_primary_keys table schema =
      if uses_primary_keys features
      then get_primary_keys table schema >>= constraint_of
      else pure no_key
