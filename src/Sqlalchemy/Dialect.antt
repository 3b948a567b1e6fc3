-- ===== src/Sqlalchemy/Dialect.antt =====
-- flightsql/sqlalchemy.py, FlightSQLDialect and DataFusionDialect: connecting, initializing and
-- telling a lost connection.
pub mod Laws
use flightsql_dbapi.Prelude.{
  ℕ, Bool, true, false, not, ◌&&◌, ◌||◌, Option, none, some, List, [], ◌∷◌, String, ◌==◌, option_eq,
  nat_eq, bytes_eq, if◌then◌else◌,
}
use flightsql_dbapi.Prelude.Dict.{Dict, lookup}
use flightsql_dbapi.Prelude.Text.{codes}
use flightsql_dbapi.Errors.{
  Exn, pep, foreign, Foreign, Result, ok, operational_error, not_supported_error,
  flight_unavailable,
}
use flightsql_dbapi.Errors.Translate.{is_subclass}
use flightsql_dbapi.Effects.{Exec, pure, raise, lift, on_world, catching, ◌>>=◌, ◌>>◌}
use flightsql_dbapi.Sqlalchemy.Url.{Text, Url, ClientArguments, client_from_url}
use flightsql_dbapi.Sqlalchemy.Reflection.{sqlalchemy_error}

-- A value of GetSqlInfo. One of another type has only its truth value here.
pub data InfoValue : Type 0 where
  null_info : InfoValue
  text_info : Text → InfoValue
  bool_info : Bool → InfoValue
  other_info : Bool → InfoValue

pub data Compiler : Type 0 where
  literal_bind prepared_statement : Compiler

-- The attributes that these methods write, and whether `paramstyle` was given to the constructor.
pub record Dialect : Type 0 where
  pub sql_info : Dict ℕ InfoValue
  pub initial_quote : InfoValue
  pub final_quote : InfoValue
  pub supports_delete : Bool
  pub supports_alter : Bool
  pub statement_compiler : Compiler
  pub paramstyle : String
  pub positional : Bool
  pub explicit_paramstyle : Bool

-- The connection that SQLAlchemy passes: the DB API connection's parts, DefaultDialect.initialize,
-- the query for the default catalog, and which exceptions are sqlalchemy.exc.DBAPIError.
pub record Opened (W : Type 0) : Type 0 where
  pub features : Dict Text Text
  pub catalog : Option Text
  pub get_sql_info : List ℕ → Exec W (Dict ℕ InfoValue)
  pub default_initialize : Exec W (Unit {0})
  pub default_catalog : Exec W (Option Text)
  pub is_dbapi_error : Exn → Bool

abbrev server_name_code : ℕ
server_name_code = 0

abbrev arrow_version_code : ℕ
arrow_version_code = 2

abbrev read_only_code : ℕ
read_only_code = 3

abbrev quote_code : ℕ
quote_code = 504

abbrev sql_info_values : List ℕ
sql_info_values = server_name_code ∷ arrow_version_code ∷ read_only_code ∷ quote_code ∷ []

abbrev pub prepared_feature : Text
prepared_feature = codes "sqlalchemy-prepared-statements"

abbrev pub truthy : InfoValue → Bool
truthy null_info = false
truthy (text_info []) = false
truthy (text_info (c ∷ s)) = true
truthy (bool_info b) = b
truthy (other_info b) = b

abbrev pub default_identifier_quote : InfoValue
default_identifier_quote = text_info (codes "\"")

-- `value or default_identifier_quote`
abbrev pub quote_of : Option InfoValue → InfoValue
quote_of none = default_identifier_quote
quote_of (some v) = if truthy v then v else default_identifier_quote

-- `if read_only is not None`
abbrev pub with_read_only : Option InfoValue → Dialect → Dialect
with_read_only none d = d
with_read_only (some null_info) d = d
with_read_only (some v) d = record d {
  supports_delete = not (truthy v);
  supports_alter = not (truthy v);
}

unfoldable pub with_sql_info : Dict ℕ InfoValue → Dialect → Dialect
unfolding lookup nat_eq
with_sql_info info d = with_read_only (lookup read_only_code info) (record d {
  sql_info = info;
  initial_quote = quote_of (lookup quote_code info);
  final_quote = quote_of (lookup quote_code info);
})

unfoldable pub is_not_supported : Exn → Bool
unfolding is_subclass
is_not_supported (pep c m k) = is_subclass c not_supported_error
is_not_supported (foreign f) = false

-- `features.get("sqlalchemy-prepared-statements") == "on"`
unfoldable pub uses_prepared : Dict Text Text → Bool
unfolding lookup bytes_eq option_eq
uses_prepared features = lookup prepared_feature features == some (codes "on")

module _ {W : Type 0} (opened : Opened W) where
  unfoldable pub sql_info_or_empty : Exec W (Dict ℕ InfoValue)
  unfolding is_not_supported
  sql_info_or_empty =
      catching (opened.get_sql_info sql_info_values)
        (λ e. if is_not_supported e then pure [] else raise e)

  -- FlightSQLDialect.initialize
  unfoldable pub initialize : Exec (Dialect × W) (Unit {0})
  unfolding sql_info_or_empty with_sql_info
  initialize = do
    on_world opened.default_initialize
    info ← on_world sql_info_or_empty
    λ (d, w). (ok tt, (with_sql_info info d, w))

  abbrev pub with_compiler : Exec (Dialect × W) (Unit {0})
  with_compiler (d, w) = (
    ok tt,
    (
      record d {
        statement_compiler =
            if uses_prepared opened.features then prepared_statement else literal_bind;
      },
      w,
    ),
  )

  abbrev pub unverified : Exn
  unverified = sqlalchemy_error "InvalidRequestError" "cannot verify the URL catalog"

  abbrev pub mismatched : Exn
  mismatched = sqlalchemy_error "InvalidRequestError" "URL catalog must match the default catalog"

  -- The query, whose failure is turned into an InvalidRequestError.
  abbrev pub reported_catalog : Exec W (Option Text)
  reported_catalog =
      catching opened.default_catalog
        (λ e. if opened.is_dbapi_error e then raise unverified else raise e)

  abbrev pub compared : Text → Option Text → Exec W (Unit {0})
  compared catalog found = if found == some catalog then pure tt else raise mismatched

  abbrev pub check_catalog : Option Text → Exec W (Unit {0})
  check_catalog none = pure tt
  check_catalog (some catalog) = reported_catalog >>= compared catalog

  -- DataFusionDialect.initialize
  unfoldable pub datafusion_initialize : Exec (Dialect × W) (Unit {0})
  unfolding initialize uses_prepared option_eq bytes_eq
  datafusion_initialize = do initialize; with_compiler; on_world (check_catalog opened.catalog)

-- `{"catalog": url.database} if url.database else {}`
abbrev catalog_of : Option Text → Option Text
catalog_of none = none
catalog_of (some []) = none
catalog_of (some (c ∷ s)) = some (c ∷ s)

-- FlightSQLDialect.create_connect_args, for the arguments of the client and the catalog.
unfoldable pub create_connect_args :
    Url → Option Text → Exec Dialect (ClientArguments × Option Text)
unfolding client_from_url
create_connect_args url database = do
  arguments ← lift (client_from_url url)
  pure (arguments, catalog_of database)

-- DataFusionDialect.create_connect_args, by whether SQLAlchemy's version is 2.
unfoldable pub datafusion_connect_args :
    Bool → Url → Option Text → Exec Dialect (ClientArguments × Option Text)
unfolding create_connect_args uses_prepared
datafusion_connect_args sqlalchemy_2 url database = do
  (arguments, catalog) ← create_connect_args url database
  λ d. (
    ok (arguments, catalog),
    if uses_prepared arguments.features && (sqlalchemy_2 && not d.explicit_paramstyle)
        then record d { paramstyle = "numeric_dollar"; positional = true }
        else d,
  )

abbrev is_unavailable : Option Foreign → Bool
is_unavailable none = false
is_unavailable (some f) = f.is_instance flight_unavailable

unfoldable pub is_disconnect : Exn → Bool
unfolding is_subclass
is_disconnect (pep c m cause) = is_subclass c operational_error && is_unavailable cause
is_disconnect (foreign f) = false
