-- ===== src/Client/Connect.antt =====
-- flightsql/client.py, create_flight_client.
pub mod Laws
use flightsql_dbapi.Prelude.{
  ℕ, Bool, true, false, ◌||◌, Option, none, some, List, [], ◌∷◌, ◌++◌, String, ◌<>◌, ◌==◌,
  string_eq, if◌then◌else◌, map,
}
use flightsql_dbapi.Errors.{
  Foreign, ForeignClass, type_error, value_error, Exn, foreign, Result, ok, raised,
}
use flightsql_dbapi.Effects.{Exec, pure, lift, ◌>>=◌, ◌>>◌}
use flightsql_dbapi.Client.Options.{Header}

-- An argument that should be a bool or None; `other` carries the name of its type.
pub data Flag : Type 0 where
  absent : Flag
  flag : Bool → Flag
  other : String → Flag

-- `if value:`, which is reached for bools and None alone.
unfoldable pub is_set : Flag → Bool
is_set absent = false
is_set (flag b) = b
is_set (other type_name) = true

-- `if text:` for an optional text.
unfoldable pub is_filled : Option String → Bool
unfolding string_eq
is_filled none = false
is_filled (some text) = if text == "" then false else true

pub data Protocol : Type 0 where
  tls tcp : Protocol

-- The parts of `f"grpc+{protocol}://{host}:{port}"`.
pub record Location : Type 0 where
  pub protocol : Protocol
  pub host : String
  pub port : ℕ

-- What `create_flight_client` calls: pyarrow's FlightClient(url, disable_server_verification=...)
-- with the remaining keyword arguments, its authenticate_basic_token, and `str.encode("utf-8")`.
pub record Connector (W C : Type 0) : Type 0 where
  pub connect : Location → Bool → Exec W C
  pub authenticate_basic_token : C → Option String → Option String → Exec W Header
  pub utf8 : String → List ℕ

pub record Arguments : Type 0 where
  pub host : String
  pub port : ℕ
  pub user : Option String
  pub password : Option String
  pub token : Option String
  pub insecure : Flag
  pub disable_server_verification : Flag
  pub metadata : List (String × String)

abbrev pub type_error_for : String → String → Exn
type_error_for name type_name = foreign (record {
  is_instance = λ c. is_type_error c;
  message = name <> (" must be a bool or None, not " <> type_name);
})
  where
    is_type_error : ForeignClass → Bool
    is_type_error type_error = true
    is_type_error _ = false

abbrev pub exclusive_error : Exn
exclusive_error = foreign (record {
  is_instance = λ c. is_value_error c;
  message = "insecure and disable_server_verification cannot both be true";
})
  where
    is_value_error : ForeignClass → Bool
    is_value_error value_error = true
    is_value_error _ = false

-- One turn of the loop over the two flags.
unfoldable pub check_flag : String → Flag → Result (Unit {0})
check_flag name absent = ok tt
check_flag name (flag b) = ok tt
check_flag name (other type_name) = raised (type_error_for name type_name)

unfoldable pub check_exclusive : Flag → Flag → Result (Unit {0})
unfolding is_set
check_exclusive insecure disable =
    if is_set insecure then (if is_set disable then raised exclusive_error else ok tt) else ok tt

unfoldable pub protocol_of : Flag → Protocol
unfolding is_set
protocol_of insecure = if is_set insecure then tcp else tls

-- `elif disable_server_verification`: set only where the connection is not insecure.
unfoldable pub skips_verification : Flag → Flag → Bool
unfolding is_set
skips_verification insecure disable = if is_set insecure then false else is_set disable

module _ {W C : Type 0} (connector : Connector W C) where
  unfoldable pub bearer_header : Option String → List Header
  bearer_header none = []
  bearer_header (some token) =
      if token == ""
      then []
      else (connector.utf8 "authorization", connector.utf8 ("Bearer " <> token)) ∷ []

  unfoldable pub metadata_headers : List (String × String) → List Header
  metadata_headers = map (λ (k, v). (connector.utf8 k, connector.utf8 v))

  -- A user or a password takes the place of a token.
  unfoldable pub authorization : C → Arguments → Exec W (List Header)
  unfolding is_filled bearer_header
  authorization client args =
      if is_filled args.user || is_filled args.password
      then (do
        header ← connector.authenticate_basic_token client args.user args.password
        pure (header ∷ []))
      else pure (bearer_header args.token)

  unfoldable pub with_headers : Arguments → C → Exec W (C × List Header)
  unfolding authorization metadata_headers
  with_headers args client = do
    headers ← authorization client args
    pure (client, headers ++ metadata_headers args.metadata)

  unfoldable pub open_client : Arguments → Exec W C
  unfolding protocol_of skips_verification
  open_client args =
      connector.connect
        (record { protocol = protocol_of args.insecure; host = args.host; port = args.port })
        (skips_verification args.insecure args.disable_server_verification)

  unfoldable pub create_flight_client : Arguments → Exec W (C × List Header)
  unfolding check_flag check_exclusive open_client with_headers
  create_flight_client args = do
    lift (check_flag "insecure" args.insecure)
    lift (check_flag "disable_server_verification" args.disable_server_verification)
    lift (check_exclusive args.insecure args.disable_server_verification)
    client ← open_client args
    with_headers args client
