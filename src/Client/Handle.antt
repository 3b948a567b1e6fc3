-- ===== src/Client/Handle.antt =====
-- flightsql/client.py, _updated_prepared_handle.
pub mod Laws
pub mod Carried
use flightsql_dbapi.Prelude.{
  ℕ, Bool, true, false, ◌&&◌, Option, none, some, String, List, [], ◌∷◌, eqb, ◌==◌, nat_eq,
  bytes_eq, option_eq, if◌then◌else◌,
}
use flightsql_dbapi.Prelude.Dict.{Dict, lookup}
use flightsql_dbapi.Client.Wire.{Fields, refused, fields, stuck, protobuf_fields}
use Prim.Native.Char.{code}

-- `text.encode()`: the code points, which are the bytes where the text is ASCII.
abbrev pub encode : String → List ℕ
encode String.[] = []
encode (String.◌∷◌ c s) = code c ∷ encode s

-- `value.startswith(prefix)` on bytes.
unfoldable pub starts_with : List ℕ → List ℕ → Bool
starts_with xs [] = true
starts_with [] (p ∷ ps) = false
starts_with (x ∷ xs) (p ∷ ps) = eqb x p && starts_with xs ps

unfoldable pub result_url : List ℕ
result_url = encode "type.googleapis.com/arrow.flight.protocol.sql.DoPutPreparedStatementResult"

unfoldable pub any_prefix : List ℕ
any_prefix = encode "type.googleapis.com/"

-- None and an empty dict are alike to the code. `stuck` is no outcome of the code.
unfoldable pub found : Fields → Dict ℕ (List ℕ)
found refused = []
found (fields d) = d
found stuck = []

-- `fields.get(1) or None`
unfoldable pub non_empty : Option (List ℕ) → Option (List ℕ)
non_empty none = none
non_empty (some []) = none
non_empty (some (b ∷ bs)) = some (b ∷ bs)

-- `(fields.get(1) or b"")`
unfoldable pub or_empty : Option (List ℕ) → List ℕ
or_empty none = []
or_empty (some bs) = bs

-- The branches on the fields of the payload, with `fields.get(1)` and `fields.get(2)`.
unfoldable pub choose_handle : Option (List ℕ) → Option (List ℕ) → Option (List ℕ)
unfolding found non_empty or_empty lookup nat_eq bytes_eq option_eq
choose_handle first (some wrapped) =
    if first == some result_url
    then non_empty (lookup 1 (found (protobuf_fields wrapped)))
    else if starts_with (or_empty first) any_prefix
    then none
    else non_empty first
choose_handle first none = if starts_with (or_empty first) any_prefix then none else non_empty first

unfoldable pub updated_prepared_handle : List ℕ → Option (List ℕ)
unfolding choose_handle
updated_prepared_handle [] = none
updated_prepared_handle (b ∷ bs) =
    let d = found (protobuf_fields (b ∷ bs)) in choose_handle (lookup 1 d) (lookup 2 d)
