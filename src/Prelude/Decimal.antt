-- ===== src/Prelude/Decimal.antt =====
-- Decimal numerals on code points: `str(n)` of a number, and `int(s)` of a text of digits.
use Prim.Native.Nat.{ℕ, zero, suc, ◌+◌, ◌-◌, ◌*◌, ◌/◌, ◌%◌, ◌<◌}
use mathlib.Core.Path.{◌≡◌, ap, ◌∙◌}
use mathlib.Core.Bool.{false, ◌&&◌}
use mathlib.Core.Option.{Option, none, some}
use mathlib.Core.List.{List, [], ◌∷◌, ◌++◌}
use mathlib.Core.Logic.{inl, inr}
use native.Mathlib.Omega.{arith}
use flightsql_dbapi.Prelude.Tests.{ltb, leb, if◌then◌else◌, Bool-cases, if-false}

-- On fuel: a number has at most as many digits as its value and one.
unfoldable pub digits_of : ℕ → ℕ → List ℕ
digits_of zero n = []
digits_of (suc fuel) n =
    let rest = digits_of fuel (n / 10) in
    if ltb n 10 then (48 + n) ∷ [] else rest ++ ((48 + n % 10) ∷ [])

unfoldable pub decimal : ℕ → List ℕ
unfolding digits_of
decimal n = digits_of (suc n) n

unfoldable pub parse_from : ℕ → List ℕ → Option ℕ
parse_from acc [] = some acc
parse_from acc (c ∷ s) =
    let rest = parse_from (acc * 10 + (c - 48)) s in if leb 48 c && leb c 57 then rest else none

parse_from-append :
    (acc m d : ℕ) (s : List ℕ)
    → d < 10
    → parse_from acc s ≡ some m
    → parse_from acc (s ++ ((48 + d) ∷ [])) ≡ some (m * 10 + d)
unfolding parse_from
parse_from-append acc m d [] h e = ground arith
parse_from-append acc m d (c ∷ s) h e =
    ground (arith, parse_from-append (acc * 10 + (c - 48)) m d s h)

shrinks : (n fuel : ℕ) → ltb n 10 ≡ false → n < suc fuel → n / 10 < fuel
shrinks n fuel big h = ground arith

parse_from-digits_of : (fuel n : ℕ) → n < fuel → parse_from 0 (digits_of fuel n) ≡ some n
unfolding digits_of parse_from
parse_from-digits_of zero n h = absurd (omega arith)
parse_from-digits_of (suc fuel) n h = elim (Bool-cases (ltb n 10)) [
  | inl small ↦ ground arith
  | inr big ↦
      ap (parse_from 0) (if-false (ltb n 10) ((48 + n) ∷ []) _ big)
      ∙ parse_from-append 0 (n / 10) (n % 10) (digits_of fuel (n / 10)) (omega arith)
          (parse_from-digits_of fuel (n / 10) (shrinks n fuel big h))
      ∙ ap some (omega arith)
]

-- What was printed is read back.
pub parse-decimal : (n : ℕ) → parse_from 0 (decimal n) ≡ some n
unfolding decimal
parse-decimal n = parse_from-digits_of (suc n) n (omega arith)
