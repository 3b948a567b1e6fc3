-- ===== src/Client/Wire/RoundTrip.antt =====
-- flightsql/client.py, _protobuf_fields on the messages of the wire format.
use flightsql_dbapi.Prelude.{
  ℕ, zero, suc, ◌+◌, ◌*◌, ◌/◌, ◌%◌, ◌^◌, ◌≤◌, ◌<◌, ◌≡◌, refl, sym, ap, ◌∙◌, List, [], ◌∷◌, ◌++◌,
  append_assoc, length, All, arith, length-append, drop-length-append, take-length-append, nat_eq,
}
use flightsql_dbapi.Prelude.Bits.{bit_and_seven}
use flightsql_dbapi.Prelude.Dict.{Dict, insert}
use flightsql_dbapi.Client.Wire.{
  varint, fields, Round, go_on, length_delimited, skip_varint, field_round, key_round, fields_loop,
  protobuf_fields,
}
use flightsql_dbapi.Client.Wire.Total.{after_round, fields_loop_turn}
use flightsql_dbapi.Client.Wire.Encoding.{IsVarint, varint_bytes, length-varint_bytes, varint-bytes}

-- A field with its number, for each wire type.
pub data Field : Type 0 where
  number_field : ℕ → ℕ → Field
  fixed64 : ℕ → List ℕ → Field
  delimited : ℕ → List ℕ → Field
  fixed32 : ℕ → List ℕ → Field

abbrev pub key_bytes : ℕ → ℕ → List ℕ
key_bytes number wire_type = varint_bytes 9 (number * 8 + wire_type)

abbrev pub field_bytes : Field → List ℕ
field_bytes (number_field n v) = key_bytes n 0 ++ varint_bytes 9 v
field_bytes (fixed64 n bytes) = key_bytes n 1 ++ bytes
field_bytes (delimited n bytes) = key_bytes n 2 ++ (varint_bytes 9 (length bytes) ++ bytes)
field_bytes (fixed32 n bytes) = key_bytes n 5 ++ bytes

abbrev pub message : List Field → List ℕ
message [] = []
message (f ∷ fs) = field_bytes f ++ message fs

-- Numbers, values and lengths fit ten groups, and fixed fields have their width.
abbrev pub Fits : Field → Type 0
Fits (number_field n v) = (n < 2 ^ 67) × IsVarint v
Fits (fixed64 n bytes) = (n < 2 ^ 67) × (length bytes ≡ 8)
Fits (delimited n bytes) = (n < 2 ^ 67) × IsVarint (length bytes)
Fits (fixed32 n bytes) = (n < 2 ^ 67) × (length bytes ≡ 4)

-- The length-delimited fields, the last of each number.
abbrev pub collect : Dict ℕ (List ℕ) → Field → Dict ℕ (List ℕ)
collect found (delimited n bytes) = insert n bytes found
collect found _ = found

abbrev pub collected : Dict ℕ (List ℕ) → List Field → Dict ℕ (List ℕ)
collected found [] = found
collected found (f ∷ fs) = collected (collect found f) fs

module _ (found : Dict ℕ (List ℕ)) where
  -- A key is split into the number and the wire type that it was made of.
  key_round-key :
      (n w : ℕ) (rest : List ℕ)
      → n < 2 ^ 67
      → w < 8
      → key_round found (varint (key_bytes n w ++ rest)) ≡ field_round found n w rest
  unfolding key_round
  key_round-key n w rest hn hw =
      rw (varint-bytes (n * 8 + w) rest (omega arith), bit_and_seven (n * 8 + w), number, wire) refl
    where
      number : (n * 8 + w) / 8 ≡ n
      number = omega arith

      wire : (n * 8 + w) % 8 ≡ w
      wire = omega arith

  -- One round takes exactly one field.
  field_round-field :
      (f : Field) (rest : List ℕ)
      → Fits f
      → key_round found (varint (field_bytes f ++ rest)) ≡ go_on (collect found f) rest
  unfolding field_round skip_varint length_delimited
  field_round-field (number_field n v) rest (hn, hv) =
      rw (append_assoc (key_bytes n 0) (varint_bytes 9 v) rest) (
        key_round-key n 0 (varint_bytes 9 v ++ rest) hn (omega arith) ∙ rw (varint-bytes v rest hv))
  field_round-field (fixed64 n bytes) rest (hn, h) = rw (append_assoc (key_bytes n 1) bytes rest) (
      key_round-key n 1 (bytes ++ rest) hn (omega arith)
      ∙ rw (sym h) (ap (go_on found) (drop-length-append bytes rest)))
  field_round-field (delimited n bytes) rest (hn, h) =
      rw
        (
          append_assoc (key_bytes n 2) (varint_bytes 9 (length bytes) ++ bytes) rest,
          append_assoc (varint_bytes 9 (length bytes)) bytes rest,
        )
        (key_round-key n 2 (varint_bytes 9 (length bytes) ++ (bytes ++ rest)) hn (omega arith)
          ∙ rw
              (
                varint-bytes (length bytes) (bytes ++ rest) h,
                take-length-append bytes rest,
                drop-length-append bytes rest,
              )
              (ground (arith, length-append bytes rest)))
  field_round-field (fixed32 n bytes) rest (hn, h) = rw (append_assoc (key_bytes n 5) bytes rest) (
      key_round-key n 5 (bytes ++ rest) hn (omega arith)
      ∙ rw (sym h) (ap (go_on found) (drop-length-append bytes rest)))

-- The loop's step on a payload that is known only not to be empty.
fields_loop_next :
    (fuel : ℕ) (found : Dict ℕ (List ℕ)) (payload : List ℕ) (r : Round)
    → 0 < length payload
    → key_round found (varint payload) ≡ r
    → fields_loop (suc fuel) found payload ≡ after_round fuel r
fields_loop_next fuel found [] r h e = absurd (omega arith)
fields_loop_next fuel found (b ∷ bs) r h e = fields_loop_turn fuel found b bs r e

length-field_bytes : (f : Field) (rest : List ℕ) → length rest < length (field_bytes f ++ rest)
length-field_bytes f rest = rw (length-append (field_bytes f) rest) (positive f)
  where
    positive : (f : Field) → length rest < length (field_bytes f) + length rest
    positive (number_field n v) =
        rw length-append (omega (arith, length-varint_bytes 9 (n * 8 + 0)))
    positive (fixed64 n bytes) = rw length-append (omega (arith, length-varint_bytes 9 (n * 8 + 1)))
    positive (delimited n bytes) =
        rw length-append (omega (arith, length-varint_bytes 9 (n * 8 + 2)))
    positive (fixed32 n bytes) = rw length-append (omega (arith, length-varint_bytes 9 (n * 8 + 5)))

fields_loop-message :
    (fs : List Field) (fuel : ℕ) (found : Dict ℕ (List ℕ))
    → length (message fs) ≤ fuel
    → All Fits fs
    → fields_loop fuel found (message fs) ≡ fields (collected found fs)
fields_loop-message [] fuel found h fits = unfold fields_loop in refl
fields_loop-message (f ∷ fs) zero found h fits =
    absurd (omega (arith, length-field_bytes f (message fs)))
fields_loop-message (f ∷ fs) (suc fuel) found h (hf, hfs) =
    fields_loop_next fuel found (message (f ∷ fs)) (go_on (collect found f) (message fs))
      (omega (arith, length-field_bytes f (message fs))) (field_round-field found f (message fs) hf)
    ∙ fields_loop-message fs fuel (collect found f)
        (omega (arith, length-field_bytes f (message fs))) hfs

-- For every list of fields whose numbers are below 2 ^ 67, whose values and lengths are below
-- 2 ^ 70 and whose fixed fields have their width, `_protobuf_fields` on the message returns
-- exactly its length-delimited fields, the last one of each number.
pub protobuf_fields-message :
    (fs : List Field) → All Fits fs → protobuf_fields (message fs) ≡ fields (collected [] fs)
unfolding protobuf_fields
protobuf_fields-message fs fits = fields_loop-message fs (length (message fs)) [] (omega arith) fits
