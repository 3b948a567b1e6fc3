-- ===== src/Tests/Wire.antt =====
-- The wire format and the handle of client.py at concrete payloads.
use flightsql_dbapi.Prelude.{
  ℕ, ◌≡◌, refl, ap, length, ◌≢◌, List, [], ◌∷◌, ◌++◌, none, some, arith, false, true, nat_eq,
  bytes_eq, option_eq,
}
use flightsql_dbapi.Prelude.Dict.{lookup, insert}
use flightsql_dbapi.Client.Wire.{varint, read, protobuf_fields, fields, refused, stuck}
use flightsql_dbapi.Client.Wire.Total.{protobuf_fields-ne-stuck}
use flightsql_dbapi.Client.Wire.Encoding.{varint_bytes, varint-bytes}
use flightsql_dbapi.Client.Wire.RoundTrip.{
  Field, number_field, delimited, fixed32, message, collected, protobuf_fields-message,
}
use flightsql_dbapi.Client.Handle.{
  encode, starts_with, result_url, any_prefix, updated_prepared_handle,
}
use flightsql_dbapi.Prelude.{◌↔◌}
use flightsql_dbapi.Client.Handle.Carried.{Carried, updated-Carried}
use flightsql_dbapi.Client.Handle.Laws.{
  updated-bare, updated-wrapped, updated-other_any, updated-ne_nil,
}

abbrev pub sample : List Field
sample = number_field 3 300 ∷ delimited 1 (7 ∷ 8 ∷ []) ∷ fixed32 2 (1 ∷ 2 ∷ 3 ∷ 4 ∷ []) ∷ []

abbrev pub bare : List Field
bare = delimited 1 (7 ∷ 8 ∷ []) ∷ []

-- The fields are read in order, and the numbers that are no bytes are skipped.
sample_fields : protobuf_fields (message sample) ≡ fields ((1, 7 ∷ 8 ∷ []) ∷ [])
unfolding protobuf_fields nat_eq varint_bytes
sample_fields = refl

-- A length past the end is refused, and a truncated varint too.
short_payload : protobuf_fields (10 ∷ 5 ∷ 1 ∷ []) ≡ refused
unfolding protobuf_fields nat_eq
short_payload = refl

protobuf_fields-ne-stuck_example : protobuf_fields (10 ∷ 5 ∷ 1 ∷ []) ≢ stuck
protobuf_fields-ne-stuck_example = protobuf_fields-ne-stuck (10 ∷ 5 ∷ 1 ∷ [])

protobuf_fields-message_example : protobuf_fields (message sample) ≡ fields (collected [] sample)
protobuf_fields-message_example = protobuf_fields-message sample (omega arith)

varint-bytes_example : varint (varint_bytes 9 300 ++ (9 ∷ [])) ≡ read 300 (9 ∷ [])
varint-bytes_example = varint-bytes 300 (9 ∷ []) (omega arith)

pub first_of_bare : lookup 1 (collected [] bare) ≡ some (7 ∷ 8 ∷ [])
unfolding lookup insert nat_eq
first_of_bare = refl

pub no_prefix : starts_with (7 ∷ 8 ∷ []) any_prefix ≡ false
unfolding starts_with any_prefix
no_prefix = refl

updated-bare_example : updated_prepared_handle (message bare) ≡ some (7 ∷ 8 ∷ [])
updated-bare_example =
    updated-bare bare (7 ∷ 8 ∷ []) (omega arith) first_of_bare (λ e. cc) no_prefix

abbrev wrapped : List Field
wrapped = delimited 1 result_url ∷ delimited 2 (message bare) ∷ []

url_of_wrapped : lookup 1 (collected [] wrapped) ≡ some result_url
unfolding lookup insert nat_eq
url_of_wrapped = refl

value_of_wrapped : lookup 2 (collected [] wrapped) ≡ some (message bare)
unfolding lookup insert nat_eq
value_of_wrapped = refl

updated-wrapped_example : updated_prepared_handle (message wrapped) ≡ some (7 ∷ 8 ∷ [])
unfolding result_url varint_bytes
updated-wrapped_example =
    updated-wrapped wrapped bare (7 ∷ 8 ∷ []) (omega arith) (omega arith) url_of_wrapped
      value_of_wrapped first_of_bare (λ e. cc)

abbrev other_url : List ℕ
other_url = encode "type.googleapis.com/x"

abbrev other_any : List Field
other_any = delimited 1 other_url ∷ []

url_of_other : lookup 1 (collected [] other_any) ≡ some other_url
unfolding lookup insert nat_eq
url_of_other = refl

other_has_prefix : starts_with other_url any_prefix ≡ true
unfolding starts_with any_prefix
other_has_prefix = refl

other_differs : other_url ≢ result_url
unfolding result_url
other_differs e = omega (arith, ap (λ (t : List ℕ). length t) e)

updated-Carried_example :
    (updated_prepared_handle (message wrapped) ≡ some (7 ∷ 8 ∷ [])) ↔ Carried wrapped (7 ∷ 8 ∷ [])
unfolding result_url varint_bytes
updated-Carried_example = updated-Carried wrapped (7 ∷ 8 ∷ []) (omega arith)

-- The URL of another message is no handle.
other_any_handle : updated_prepared_handle (message other_any) ≡ none
other_any_handle =
    updated-other_any other_any other_url (omega arith) url_of_other other_differs other_has_prefix

updated-ne_nil_example : ◌≢◌ {A = List ℕ} (7 ∷ 8 ∷ []) []
updated-ne_nil_example = updated-ne_nil (message bare) (7 ∷ 8 ∷ []) updated-bare_example
