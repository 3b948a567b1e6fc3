-- ===== src/Client/Options/Laws.antt =====
-- flightsql/client.py, _flight_call_options: the headers that an RPC carries.
use flightsql_dbapi.Prelude.{ℕ, ◌≡◌, refl, Option, none, some, List, [], ◌++◌, bytes_eq}
use flightsql_dbapi.Prelude.Dict.{
  lookup, last_value, lookup-update, last_value-append, NodupKeys, update-NodupKeys,
}
use flightsql_dbapi.Client.Options.{
  Header, CallOptions, FlightOptions, joined_headers, deduplicated, flight_call_options,
}

abbrev pub sent_header : {I : Type 0} → List ℕ → FlightOptions I → Option (List ℕ)
sent_header key options = lookup key options.headers

lookup-deduplicated :
    (key : List ℕ) (headers : List Header)
    → lookup key (deduplicated headers) ≡ last_value key headers none
unfolding deduplicated lookup
lookup-deduplicated key headers = lookup-update key [] headers

NodupKeys-deduplicated : (headers : List Header) → NodupKeys (deduplicated headers)
unfolding deduplicated
NodupKeys-deduplicated headers = update-NodupKeys [] headers tt

module _ {I : Type 0} (own : List Header) (options : CallOptions I) (more : List Header) where
  -- With per-call headers every header name is sent once, with the last per-call value of that
  -- name if there is one, and the client's last value otherwise; a name that neither list has is
  -- not sent.
  pub flight_call_options_override :
      options.headers ≡ some more
      → (key : List ℕ)
      → (sent_header key (flight_call_options own (some options))
          ≡ last_value key more (last_value key own none))
        × NodupKeys (flight_call_options own (some options)).headers
  unfolding flight_call_options joined_headers
  flight_call_options_override given key =
      rw given
        (rw (lookup-deduplicated, last_value-append) refl, NodupKeys-deduplicated (own ++ more))

-- Without per-call headers the client's own headers are deduplicated in the same way.
pub flight_call_options_own :
    {I : Type 0} (own : List Header) (options : CallOptions I)
    → options.headers ≡ none
    → (key : List ℕ)
    → (sent_header key (flight_call_options own (some options)) ≡ last_value key own none)
      × NodupKeys (flight_call_options own (some options)).headers
unfolding flight_call_options joined_headers
flight_call_options_own own options given key =
    rw given (lookup-deduplicated key own, NodupKeys-deduplicated own)
