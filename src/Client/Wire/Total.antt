-- ===== src/Client/Wire/Total.antt =====
-- flightsql/client.py, _protobuf_fields: the rounds of its loops, and the fuel.
use flightsql_dbapi.Prelude.{
  ℕ, zero, suc, ◌+◌, ◌*◌, ◌/◌, ◌^◌, ◌≤◌, ◌<◌, ◌≡◌, refl, ◌≢◌, bit_and, bit_or, List, [], ◌∷◌,
  length, length-drop, arith,
}
use flightsql_dbapi.Prelude.Dict.{Dict}
use flightsql_dbapi.Client.Wire.{
  Varint, value_error, read, varint_loop, varint, Fields, refused, stuck, Round, refuse, go_on,
  length_delimited, skip_varint, field_round, key_round, fields_loop, protobuf_fields,
}

-- What `varint` leaves is shorter than n.
abbrev pub Shorter : ℕ → Varint → Type 0
Shorter n value_error = Unit
Shorter n (read v rest) = length rest < n

varint_loop_takes :
    (payload : List ℕ) (value shift v : ℕ) (rest : List ℕ)
    → varint_loop payload value shift ≡ read v rest
    → length rest < length payload
unfolding varint_loop
varint_loop_takes [] value shift v rest e = cc
varint_loop_takes (b ∷ bs) value shift v rest e =
    ground
      (arith, varint_loop_takes bs (bit_or value (bit_and b 0x7f * 2 ^ shift)) (shift + 7) v rest)

pub varint-Shorter : (payload : List ℕ) → Shorter (length payload) (varint payload)
unfolding varint
varint-Shorter payload = bound (varint payload) refl
  where
    bound : (r : Varint) → varint payload ≡ r → Shorter (length payload) r
    bound value_error e = tt
    bound (read v rest) e = varint_loop_takes payload 0 0 v rest e

-- What a round leaves is no longer than n.
abbrev Leaves : ℕ → Round → Type 0
Leaves n refuse = Unit
Leaves n (go_on found rest) = length rest ≤ n

module _ (found : Dict ℕ (List ℕ)) where
  skip_varint-Leaves : (n : ℕ) (r : Varint) → Shorter n r → Leaves n (skip_varint found r)
  unfolding skip_varint
  skip_varint-Leaves n value_error h = tt
  skip_varint-Leaves n (read v rest) h = omega arith

  length_delimited-Leaves :
      (n number : ℕ) (r : Varint) → Shorter n r → Leaves n (length_delimited found number r)
  unfolding length_delimited
  length_delimited-Leaves n number value_error h = tt
  length_delimited-Leaves n number (read size rest) h = ground (arith, length-drop size rest)

  field_round-Leaves :
      (number wire_type : ℕ) (rest : List ℕ)
      → Leaves (length rest) (field_round found number wire_type rest)
  unfolding field_round
  field_round-Leaves number wire_type rest = ground (
    arith,
    skip_varint-Leaves (length rest) (varint rest) (varint-Shorter rest),
    length_delimited-Leaves (length rest) number (varint rest) (varint-Shorter rest),
    length-drop 8 rest,
    length-drop 4 rest,
  )

  key_round-Leaves : (n : ℕ) (r : Varint) → Shorter (suc n) r → Leaves n (key_round found r)
  unfolding key_round
  key_round-Leaves n value_error h = tt
  key_round-Leaves n (read key rest) h =
      ground (arith, field_round-Leaves (key / 8) (bit_and key 0x07) rest)

-- One turn of the outer loop, on what its round returned.
abbrev pub after_round : ℕ → Round → Fields
after_round fuel refuse = refused
after_round fuel (go_on found rest) = fields_loop fuel found rest

pub fields_loop_turn :
    (fuel : ℕ) (found : Dict ℕ (List ℕ)) (b : ℕ) (bs : List ℕ) (r : Round)
    → key_round found (varint (b ∷ bs)) ≡ r
    → fields_loop (suc fuel) found (b ∷ bs) ≡ after_round fuel r
unfolding fields_loop
fields_loop_turn fuel found b bs refuse e = rw (e, fields_loop)
fields_loop_turn fuel found b bs (go_on found' rest) e = rw (e, fields_loop)

fields_loop-ne-stuck :
    (fuel : ℕ) (found : Dict ℕ (List ℕ)) (payload : List ℕ)
    → length payload ≤ fuel
    → fields_loop fuel found payload ≢ stuck
fields_loop-ne-stuck fuel found [] h = unfold fields_loop in λ e. cc
fields_loop-ne-stuck zero found (b ∷ bs) h = absurd (omega arith)
fields_loop-ne-stuck (suc fuel) found (b ∷ bs) h =
    go (key_round found (varint (b ∷ bs))) refl
      (key_round-Leaves found (length bs) (varint (b ∷ bs)) (varint-Shorter (b ∷ bs)))
      (λ found' rest fits. fields_loop-ne-stuck fuel found' rest fits)
  where
    go :
        (r : Round)
        → key_round found (varint (b ∷ bs)) ≡ r
        → Leaves (length bs) r
        → ((found' : Dict ℕ (List ℕ)) (rest : List ℕ)
            → length rest ≤ fuel
            → fields_loop fuel found' rest ≢ stuck)
        → fields_loop (suc fuel) found (b ∷ bs) ≢ stuck
    go refuse e l ih = rw (fields_loop_turn fuel found b bs refuse e) (λ p. cc)
    go (go_on found' rest) e l ih =
        rw (fields_loop_turn fuel found b bs (go_on found' rest) e) (ih found' rest (omega arith))

-- `_protobuf_fields` ends on every payload, well formed or not: its loop never runs out of fuel.
pub protobuf_fields-ne-stuck : (payload : List ℕ) → protobuf_fields payload ≢ stuck
unfolding protobuf_fields
protobuf_fields-ne-stuck payload = fields_loop-ne-stuck (length payload) [] payload (omega arith)
