-- ===== src/Tests/Dialect.antt =====
-- The DataFusion dialect on a server without GetSqlInfo, and errors of a server that is gone.
use flightsql_dbapi.Prelude.{
  ℕ, suc, ◌≡◌, refl, Bool, true, false, none, some, [], ◌∷◌, if◌then◌else◌, option_eq, bytes_eq,
  nat_eq,
}
use flightsql_dbapi.Prelude.Text.{codes}
use flightsql_dbapi.Errors.{
  pep, foreign, Foreign, ForeignClass, flight_unavailable, not_supported_error, ok, raised,
}
use flightsql_dbapi.Errors.Translate.{translate_exn}
use flightsql_dbapi.Sqlalchemy.Url.{Url, one}
use flightsql_dbapi.Sqlalchemy.Dialect.{
  text_info, null_info, bool_info, literal_bind, prepared_statement, Dialect, Opened,
  prepared_feature, uses_prepared, datafusion_initialize, datafusion_connect_args, is_disconnect,
}
use flightsql_dbapi.Sqlalchemy.Dialect.Laws.{
  Verified, Quoted, datafusion_initialize-Verified, is_disconnect-translate_exn,
}

abbrev opened : Opened ℕ
opened = record {
  features = (prepared_feature, codes "on") ∷ [];
  catalog = some (codes "sales");
  get_sql_info = λ values n. (raised (pep not_supported_error "no" none), suc n);
  default_initialize = λ n. (ok tt, suc n);
  default_catalog = λ n. (ok (some (codes "sales")), suc n);
  is_dbapi_error = λ e. false;
}

abbrev before : Dialect
before = record {
  sql_info = (3, bool_info true) ∷ [];
  initial_quote = null_info;
  final_quote = null_info;
  supports_delete = true;
  supports_alter = true;
  statement_compiler = literal_bind;
  paramstyle = "qmark";
  positional = false;
  explicit_paramstyle = false;
}

abbrev after : Dialect
after = record before {
  sql_info = [];
  initial_quote = text_info (codes "\"");
  final_quote = text_info (codes "\"");
  statement_compiler = prepared_statement;
}

initialized : datafusion_initialize opened (before, 0) ≡ (ok tt, (after, 3))
unfolding datafusion_initialize
initialized = refl

datafusion_initialize-Verified_example :
    Verified opened opened.catalog 3
    × (after.statement_compiler
        ≡ (if uses_prepared opened.features then prepared_statement else literal_bind))
    × Quoted after
datafusion_initialize-Verified_example =
    datafusion_initialize-Verified opened before after 0 3 initialized

abbrev only_unavailable : ForeignClass → Bool
only_unavailable flight_unavailable = true
only_unavailable _ = false

abbrev gone : Foreign
gone = record { is_instance = only_unavailable; message = "gone" }

is_disconnect-translate_exn_example :
    is_disconnect (translate_exn (foreign gone)) ≡ gone.is_instance flight_unavailable
is_disconnect-translate_exn_example = is_disconnect-translate_exn gone

-- The connection arguments of a URL with the feature for prepared statements.
abbrev address : Url
address = record {
  host = some (codes "db");
  port = some 443;
  user = none;
  password = none;
  query = (codes "feature-sqlalchemy-prepared-statements", one (codes "on")) ∷ [];
}

numeric_paramstyle :
    (datafusion_connect_args true address (some (codes "sales")) before).1.paramstyle
    ≡ "numeric_dollar"
unfolding datafusion_connect_args
numeric_paramstyle = refl
