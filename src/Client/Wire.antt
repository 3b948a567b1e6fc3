-- ===== src/Client/Wire.antt =====
-- flightsql/client.py, _protobuf_fields: the length-delimited fields of a protobuf message.
-- A payload is a list of bytes. The position `pos` is the list of the bytes from `pos` on, so
-- `pos += n` drops n bytes, and `payload[pos : pos + n]` takes them.
pub mod Total
pub mod Encoding
pub mod RoundTrip
use flightsql_dbapi.Prelude.{
  ℕ, zero, suc, ◌+◌, ◌*◌, ◌/◌, ◌^◌, ◌<◌, bit_and, bit_or, Bool, List, [], ◌∷◌, length, take, drop,
  ltb, eqb, nat_eq, if◌then◌else◌,
}
use flightsql_dbapi.Prelude.Dict.{Dict, insert}

abbrev pub IsByte : ℕ → Type 0
IsByte b = b < 256

-- What the inner `varint(pos)` does: it returns the value and the position behind it, or raises
-- ValueError.
pub data Varint : Type 0 where
  value_error : Varint
  read : ℕ → List ℕ → Varint

-- The `while True` of `varint`. Each round takes a byte, so it recurs on the bytes that are left.
unfoldable pub varint_loop : List ℕ → ℕ → ℕ → Varint
varint_loop [] value shift = value_error
varint_loop (byte ∷ rest) value shift =
    let value' = bit_or value (bit_and byte 0x7f * 2 ^ shift) in
    let more = varint_loop rest value' (shift + 7) in
    if ltb 63 shift
    then value_error
    else if eqb (bit_and byte 0x80) 0
    then read value' rest
    else more

unfoldable pub varint : List ℕ → Varint
unfolding varint_loop
varint payload = varint_loop payload 0 0

-- `Optional[Dict[int, bytes]]`. `stuck` is no Python value: the loop ran out of fuel.
pub data Fields : Type 0 where
  refused : Fields
  fields : Dict ℕ (List ℕ) → Fields
  stuck : Fields

-- One round of the loop: the message is refused, or the loop goes on with these fields there.
pub data Round : Type 0 where
  refuse : Round
  go_on : Dict ℕ (List ℕ) → List ℕ → Round

unfoldable pub length_delimited : Dict ℕ (List ℕ) → ℕ → Varint → Round
unfolding nat_eq insert
length_delimited found number value_error = refuse
length_delimited found number (read size rest) =
    if ltb (length rest) size
    then refuse
    else go_on (insert number (take size rest) found) (drop size rest)

unfoldable pub skip_varint : Dict ℕ (List ℕ) → Varint → Round
skip_varint found value_error = refuse
skip_varint found (read _ rest) = go_on found rest

-- The branches on `wire_type`, on the bytes behind the key.
unfoldable pub field_round : Dict ℕ (List ℕ) → ℕ → ℕ → List ℕ → Round
unfolding varint length_delimited skip_varint
field_round found number wire_type rest =
    if eqb wire_type 0
    then skip_varint found (varint rest)
    else if eqb wire_type 2
    then length_delimited found number (varint rest)
    else if eqb wire_type 1
    then go_on found (drop 8 rest)
    else if eqb wire_type 5
    then go_on found (drop 4 rest)
    else refuse

unfoldable pub key_round : Dict ℕ (List ℕ) → Varint → Round
unfolding field_round
key_round found value_error = refuse
key_round found (read key rest) = field_round found (key / 8) (bit_and key 0x07) rest

-- `while pos < len(payload)`.
unfoldable pub fields_loop : ℕ → Dict ℕ (List ℕ) → List ℕ → Fields
unfolding key_round varint
fields_loop fuel found [] = fields found
fields_loop zero found (byte ∷ rest) = stuck
fields_loop (suc fuel) found (byte ∷ rest) = elim (key_round found (varint (byte ∷ rest))) [
  | refuse ↦ refused
  | go_on found' rest' ↦ fields_loop fuel found' rest'
]

-- Each round takes a byte at least, so `length payload` rounds are enough.
unfoldable pub protobuf_fields : List ℕ → Fields
unfolding fields_loop
protobuf_fields payload = fields_loop (length payload) [] payload
