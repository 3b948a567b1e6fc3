-- ===== src/Client/Wire/Encoding.antt =====
-- The protobuf wire format, written from its specification: base 128 varints, and fields of the
-- four wire types that `_protobuf_fields` accepts.
use flightsql_dbapi.Prelude.{
  ℕ, zero, suc, ◌+◌, ◌*◌, ◌/◌, ◌%◌, ◌^◌, ◌≤◌, ◌<◌, ◌≡◌, ap, List, [], ◌∷◌, ◌++◌, length, ltb, arith,
  if◌then◌else◌,
}
use flightsql_dbapi.Prelude.Bits.{bit_or-shifted, bit_and_low, bit_and_top}
use flightsql_dbapi.Client.Wire.{read, varint_loop, varint}
use native.Mathlib.Numerals.{towards_suc}
use native.Mathlib.Nat.{div-add-mod}

-- A value in at most k + 1 groups of seven bits, lowest first, each but the last marked.
unfoldable pub varint_bytes : ℕ → ℕ → List ℕ
varint_bytes zero v = v ∷ []
varint_bytes (suc k) v =
    let rest = varint_bytes k (v / 128) in if ltb v 128 then v ∷ [] else (v % 128 + 128) ∷ rest

-- The largest values that ten groups hold.
abbrev pub IsVarint : ℕ → Type 0
IsVarint v = v < 2 ^ 70

pub length-varint_bytes : (k v : ℕ) → 0 < length (varint_bytes k v)
unfolding varint_bytes
length-varint_bytes zero v = omega arith
length-varint_bytes (suc k) v = ground arith

last_byte :
    (w acc shift : ℕ) (rest : List ℕ)
    → w < 128
    → shift ≤ 63
    → acc < 2 ^ shift
    → varint_loop (w ∷ rest) acc shift ≡ read (acc + w * 2 ^ shift) rest
unfolding varint_loop
last_byte w acc shift rest hw hs ha =
    rw (bit_and_low w (omega arith), bit_and_top w (omega arith), small)
      (ground (arith, bit_or-shifted shift acc w ha))
  where
    small : w % 128 ≡ w
    small = omega arith

inner_byte :
    (g acc shift : ℕ) (rest : List ℕ)
    → g < 128
    → shift ≤ 63
    → acc < 2 ^ shift
    → varint_loop ((g + 128) ∷ rest) acc shift ≡ varint_loop rest (acc + g * 2 ^ shift) (shift + 7)
unfolding varint_loop
inner_byte g acc shift rest hg hs ha =
    rw
      (
        bit_and_low (g + 128) (omega arith),
        bit_and_top (g + 128) (omega arith),
        low,
        bit_or-shifted shift acc g ha,
      )
      (ground arith)
  where
    low : (g + 128) % 128 ≡ g
    low = omega arith

shift_seven : (s : ℕ) → 2 ^ (s + 7) ≡ 128 * 2 ^ s
shift_seven s = simp towards_suc (omega arith)

-- The lowest group of `w` and the other groups, both shifted.
regroup : (w s : ℕ) → w * 2 ^ s ≡ w % 128 * 2 ^ s + w / 128 * 2 ^ (s + 7)
regroup w s = rw (shift_seven s) (omega (arith, ap (λ (t : ℕ). t * 2 ^ s) (div-add-mod w 128)))

still_low : (g acc s : ℕ) → g < 128 → acc < 2 ^ s → acc + g * 2 ^ s < 2 ^ (s + 7)
still_low g acc s hg ha = rw (shift_seven s) (grind arith)

varint_loop-bytes :
    (k w acc shift : ℕ) (rest : List ℕ)
    → w < 128 ^ suc k
    → shift + 7 * k ≤ 63
    → acc < 2 ^ shift
    → varint_loop (varint_bytes k w ++ rest) acc shift ≡ read (acc + w * 2 ^ shift) rest
unfolding varint_bytes
varint_loop-bytes zero w acc shift rest hw hs ha =
    last_byte w acc shift rest (omega arith) (omega arith) ha
varint_loop-bytes (suc k) w acc shift rest hw hs ha = ground (
  arith,
  last_byte w acc shift rest,
  regroup w shift,
  inner_byte (w % 128) acc shift (varint_bytes k (w / 128) ++ rest),
  still_low (w % 128) acc shift,
  varint_loop-bytes k (w / 128) (acc + w % 128 * 2 ^ shift) (shift + 7) rest (omega arith),
)

-- `varint` reads back a value in up to ten groups, and leaves what follows it.
pub varint-bytes :
    (v : ℕ) (rest : List ℕ) → IsVarint v → varint (varint_bytes 9 v ++ rest) ≡ read v rest
unfolding varint
varint-bytes v rest h = ground (arith, varint_loop-bytes 9 v 0 0 rest)
