-- ===== src/Tests/Url.antt =====
-- Runs of client_from_url.
use flightsql_dbapi.Prelude.{
  ◌≡◌, refl, true, false, ◌&&◌, ◌||◌, none, some, List, [], ◌∷◌, ◌++◌, if◌then◌else◌, bytes_eq,
}
use flightsql_dbapi.Prelude.Dict.{lookup, last_value}
use flightsql_dbapi.Prelude.Text.{codes, starts_with}
use flightsql_dbapi.Errors.{ok}
use flightsql_dbapi.Sqlalchemy.Url.{
  Text, Url, one, many, ClientArguments, token_key, feature_prefix, query_pairs, client_from_url,
}
use flightsql_dbapi.Sqlalchemy.Url.Laws.{is_option, client_from_url-last_value}

abbrev address : Url
address = record {
  host = some (codes "db");
  port = some 443;
  user = none;
  password = none;
  query =
      (codes "Token", many (codes "old" ∷ codes "new" ∷ []))
      ∷ (codes "feature-x", one (codes "1"))
      ∷ (codes "insecure", one (codes " Yes "))
      ∷ (codes "Database", one (codes "d"))
      ∷ [];
}

abbrev arguments : ClientArguments
arguments = record {
  host = codes "db";
  port = 443;
  user = none;
  password = none;
  token = some (codes "new");
  insecure = true;
  disable_server_verification = false;
  metadata = (codes "database", codes "d") ∷ [];
  features = (codes "x", codes "1") ∷ [];
}

abbrev pairs : List (Text × Text)
pairs =
    (codes "token", codes "new")
    ∷ (codes "feature-x", codes "1")
    ∷ (codes "insecure", codes " Yes ")
    ∷ (codes "database", codes "d")
    ∷ []

runs_query_pairs : query_pairs address.query ≡ ok pairs
unfolding query_pairs
runs_query_pairs = refl

runs_client_from_url : client_from_url address ≡ ok arguments
unfolding client_from_url
runs_client_from_url = refl

client_from_url-last_value_example :
    (lookup (codes "database") arguments.metadata ≡ (
      if starts_with (codes "database") feature_prefix || is_option (codes "database")
      then none
      else last_value (codes "database") pairs none))
    × (lookup (codes "database") arguments.features
        ≡ last_value (feature_prefix ++ codes "database") pairs none)
    × (arguments.token ≡ last_value token_key pairs none)
    × ((arguments.insecure && arguments.disable_server_verification) ≡ false)
client_from_url-last_value_example =
    client_from_url-last_value address pairs arguments (codes "database") runs_query_pairs
      runs_client_from_url
