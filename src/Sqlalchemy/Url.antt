-- ===== src/Sqlalchemy/Url.antt =====
-- flightsql/sqlalchemy.py, client_from_url. A text is the list of its code points.
pub mod Routes
pub mod Laws
use flightsql_dbapi.Prelude.{
  ℕ, Bool, true, false, ◌&&◌, Option, none, some, List, [], ◌∷◌, ◌++◌, map, ◌==◌, contains, nat_eq,
  bytes_eq, if◌then◌else◌, length, drop,
}
use flightsql_dbapi.Prelude.Dict.{Dict, lookup, insert, erase, update, keys}
use flightsql_dbapi.Prelude.Text.{codes, strip, lower, starts_with}
use flightsql_dbapi.Errors.{Exn, foreign, python_error, Result, ok, raised, ◌>>=◌}

abbrev pub Text : Type 0
Text = List ℕ

-- A value of `url.query`: repeated parameters are a tuple.
pub data QueryValue : Type 0 where
  one : Text → QueryValue
  many : List Text → QueryValue

-- `url.translate_connect_args(username="user")`, which leaves out what the URL lacks, and
-- `url.query`.
pub record Url : Type 0 where
  pub host : Option Text
  pub port : Option ℕ
  pub user : Option Text
  pub password : Option Text
  pub query : Dict Text QueryValue

-- The keyword arguments of FlightSQLClient.
pub record ClientArguments : Type 0 where
  pub host : Text
  pub port : ℕ
  pub user : Option Text
  pub password : Option Text
  pub token : Option Text
  pub insecure : Bool
  pub disable_server_verification : Bool
  pub metadata : Dict Text Text
  pub features : Dict Text Text

abbrev pub insecure_key : Text
insecure_key = codes "insecure"

abbrev pub verification_key : Text
verification_key = codes "disable_server_verification"

abbrev pub token_key : Text
token_key = codes "token"

abbrev pub feature_prefix : Text
feature_prefix = codes "feature-"

abbrev pub true_query_values : List Text
true_query_values = codes "1" ∷ codes "true" ∷ codes "yes" ∷ codes "on" ∷ []

abbrev pub false_query_values : List Text
false_query_values = [] ∷ codes "0" ∷ codes "false" ∷ codes "no" ∷ codes "off" ∷ []

abbrev pub argument_error : Exn
argument_error = foreign (python_error "ArgumentError: invalid boolean value")

abbrev pub both_error : Exn
both_error =
    foreign
      (python_error "ArgumentError: insecure and disable_server_verification cannot both be true")

unfoldable pub parse_boolean_query_value : Text → Result Bool
unfolding strip lower bytes_eq
parse_boolean_query_value value =
    if contains true_query_values (lower (strip value))
    then ok true
    else if contains false_query_values (lower (strip value))
    then ok false
    else raised argument_error

-- `value[-1]`
unfoldable pub last_of : List Text → Result Text
last_of [] = raised (foreign (python_error "IndexError: tuple index out of range"))
last_of (value ∷ []) = ok value
last_of (value ∷ next ∷ values) = last_of (next ∷ values)

unfoldable pub query_text : QueryValue → Result Text
unfolding last_of
query_text (one value) = ok value
query_text (many values) = last_of values

-- The pairs of the comprehension, in the order of the query.
unfoldable pub query_pairs : Dict Text QueryValue → Result (List (Text × Text))
unfolding query_text lower
query_pairs [] = ok []
query_pairs ((key, value) ∷ query) =
    query_text value >>= λ last. query_pairs query >>= λ rest. ok ((lower key, last) ∷ rest)

-- `metadata.pop(name, "")`, for its value.
abbrev pub or_blank : Option Text → Text
or_blank none = []
or_blank (some value) = value

abbrev pub Split : Type 0
Split = Dict Text Text × Dict Text Text

abbrev moved : Text → Option Text → Split → Split
moved key none split = split
moved key (some value) (features, metadata) =
    (insert (drop (length feature_prefix) key) value features, erase key metadata)

-- One turn of the loop over `list(metadata.keys())`.
unfoldable pub move_feature : Text → Split → Split
unfolding lookup insert erase bytes_eq nat_eq starts_with
move_feature key (features, metadata) =
    if starts_with key feature_prefix
    then moved key (lookup key metadata) (features, metadata)
    else (features, metadata)

unfoldable pub move_features : List Text → Split → Split
unfolding move_feature
move_features [] split = split
move_features (key ∷ rest) split = move_features rest (move_feature key split)

-- A missing key of `fields`.
abbrev pub required : {A : Type 0} → Option A → Result A
required none = raised (foreign (python_error "KeyError"))
required (some a) = ok a

-- The metadata without the three keys that are popped.
unfoldable pub without_options : Dict Text Text → Dict Text Text
unfolding erase bytes_eq
without_options all = erase token_key (erase verification_key (erase insecure_key all))

-- The call of FlightSQLClient.
unfoldable pub client_arguments : Url → Dict Text Text → Bool → Bool → Text → ℕ → ClientArguments
unfolding lookup bytes_eq move_features without_options
client_arguments url all insecure skip host port = record {
  host = host;
  port = port;
  user = url.user;
  password = url.password;
  token = lookup token_key all;
  insecure = insecure;
  disable_server_verification = skip;
  metadata = (move_features (keys (without_options all)) ([], without_options all)).1;
  features = (move_features (keys (without_options all)) ([], without_options all)).0;
}

unfoldable pub arguments_of : Url → Dict Text Text → Bool → Bool → Result ClientArguments
unfolding client_arguments
arguments_of url all insecure skip =
    if insecure && skip
    then raised both_error
    else (required url.host >>= λ host.
        required url.port >>= λ port. ok (client_arguments url all insecure skip host port))

-- `all` is the metadata before any key is popped.
unfoldable pub options_of : Url → Dict Text Text → Result ClientArguments
unfolding parse_boolean_query_value lookup bytes_eq arguments_of
options_of url all = parse_boolean_query_value (or_blank (lookup insecure_key all)) >>= λ insecure.
    parse_boolean_query_value (or_blank (lookup verification_key all)) >>= λ skip.
    arguments_of url all insecure skip

unfoldable pub client_from_url : Url → Result ClientArguments
unfolding query_pairs update bytes_eq options_of
client_from_url url = query_pairs url.query >>= λ pairs. options_of url (update [] pairs)
