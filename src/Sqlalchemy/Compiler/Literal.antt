-- ===== src/Sqlalchemy/Compiler/Literal.antt =====
-- flightsql/sqlalchemy.py, LiteralBindCompiler: the literals that it renders itself.
use flightsql_dbapi.Prelude.{
  ℕ, ◌+◌, ◌-◌, ◌*◌, ◌/◌, ◌%◌, ◌<◌, ◌≡◌, refl, ap, ◌&&◌, Option, none, some, List, [], ◌∷◌, ◌++◌,
  leb, eqb, All, if◌then◌else◌, arith,
}
use flightsql_dbapi.Prelude.Text.{codes}
use flightsql_dbapi.Errors.{ok}
use flightsql_dbapi.Sqlalchemy.Url.{Text}
use flightsql_dbapi.Sqlalchemy.Compiler.{
  SqlaType, binary, bytes_value, Super, hex_digit, hex, resolved, render_typed,
  render_literal_value,
}

-- The value of a hexadecimal digit in lower case.
unfoldable pub digit_value : ℕ → Option ℕ
digit_value c =
    if leb b'0' c && leb c b'9'
    then some (c - b'0')
    else if leb b'a' c && leb c b'f'
    then some (c - 87)
    else none

abbrev byte_of : Option ℕ → Option ℕ → Option ℕ
byte_of (some h) (some l) = some (h * 16 + l)
byte_of _ _ = none

abbrev prepended : Option ℕ → Option (List ℕ) → Option (List ℕ)
prepended (some b) (some bytes) = some (b ∷ bytes)
prepended _ _ = none

-- The bytes of the inside of a binary literal, up to its quote; what follows the quote must be
-- the end.
unfoldable pub read_binary : Text → Option (List ℕ)
unfolding digit_value
read_binary (q ∷ []) = if eqb q b'\'' then some [] else none
read_binary (h ∷ l ∷ s) = prepended (byte_of (digit_value h) (digit_value l)) (read_binary s)
read_binary _ = none

digit_value-hex_digit : (d : ℕ) → d < 16 → digit_value (hex_digit d) ≡ some d
unfolding digit_value hex_digit
digit_value-hex_digit d h = ground arith

read_binary-hex :
    (bytes : List ℕ) → All (λ b. b < 256) bytes → read_binary (hex bytes ++ codes "'") ≡ some bytes
unfolding read_binary hex
read_binary-hex [] h = refl
read_binary-hex (b ∷ bytes) (h, hs) =
    let high = digit_value-hex_digit (b / 16) (omega arith) in
    let low = digit_value-hex_digit (b % 16) (omega arith) in
    let rest = read_binary-hex bytes hs in
    rw (high, low, rest) (ap (λ n. some (n ∷ bytes)) (omega arith))

-- A byte string whose type, resolved where it is untyped, is a binary one is rendered as the
-- literal X'...': reading the hexadecimal digits up to its quote, which ends it, gives the bytes.
pub render_literal_value-bytes :
    {Keywords : Type 0} (super : Super Keywords) (type : SqlaType) (bytes : List ℕ)
    → All (λ b. b < 256) bytes
    → (resolved super (bytes_value bytes) type).affinity ≡ binary
    → (inside : Text) × (render_literal_value super (bytes_value bytes) type
        ≡ ok (codes "X'" ++ inside))
      × (read_binary inside ≡ some bytes)
unfolding render_literal_value
render_literal_value-bytes super type bytes h e = (
  hex bytes ++ codes "'",
  ap (render_typed super (bytes_value bytes) (resolved super (bytes_value bytes) type)) e,
  read_binary-hex bytes h,
)
