-- ===== src/Prelude/Bits.antt =====
-- The bit operations of the wire format as arithmetic.
use Prim.Native.Nat.{ℕ, zero, suc, ◌+◌, ◌*◌, ◌/◌, ◌%◌, ◌^◌, ◌≤◌, ◌<◌, min, max, bit_and, bit_or}
use Prim.Native.Nat.{digits, bit_and-bitwise, bit_or-bitwise}
use mathlib.Core.Path.{◌≡◌, refl, ap}
use mathlib.Core.Bool.{Bool, true, ◌&&◌}
use native.Mathlib.Omega.{arith}
use native.Mathlib.Nat.{pow-suc}
use flightsql_dbapi.Prelude.Tests.{eqb}

module _ (z : ℕ → ℕ) (f : ℕ → ℕ → ℕ) where
  -- The count of digits to go does not matter while it is at least the first number.
  digits-enough : (n m a b : ℕ) → a ≤ n → a ≤ m → digits z f n a b ≡ digits z f m a b
  digits-enough zero zero a b p q = refl
  digits-enough zero (suc m) zero b p q = refl
  digits-enough (suc n) zero zero b p q = refl
  digits-enough (suc n) (suc m) zero b p q = refl
  digits-enough zero (suc m) (suc a) b p q = absurd (omega arith)
  digits-enough (suc n) zero (suc a) b p q = absurd (omega arith)
  digits-enough (suc n) (suc m) (suc a) b p q =
      ap (λ (t : ℕ). t * 2 + f (suc a % 2) (b % 2))
        (digits-enough n m (suc a / 2) (b / 2) (omega arith) (omega arith))

  -- The lowest digit, and the other digits.
  digits_step :
      (a b : ℕ)
      → digits z f (suc a) (suc a) b
        ≡ digits z f (suc a / 2) (suc a / 2) (b / 2) * 2 + f (suc a % 2) (b % 2)
  digits_step a b =
      ap (λ (t : ℕ). t * 2 + f (suc a % 2) (b % 2))
        (digits-enough a (suc a / 2) (suc a / 2) (b / 2) (omega arith) (omega arith))

bit_or_step : (a b : ℕ) → bit_or a b ≡ max (a % 2) (b % 2) + 2 * bit_or (a / 2) (b / 2)
bit_or_step zero b = omega (arith, bit_or-bitwise 0 b, bit_or-bitwise 0 (b / 2))
bit_or_step (suc a) b = omega (
  arith,
  digits_step (λ y. y) max a b,
  bit_or-bitwise (suc a) b,
  bit_or-bitwise (suc a / 2) (b / 2),
)

pow_suc : (s : ℕ) → 2 ^ suc s ≡ 2 * 2 ^ s
pow_suc s = omega (arith, pow-suc 2 s)

-- Disjoint bits: an or is a sum.
pub bit_or-shifted : (s v g : ℕ) → v < 2 ^ s → bit_or v (g * 2 ^ s) ≡ v + g * 2 ^ s
bit_or-shifted zero zero g h = omega (arith, bit_or-bitwise 0 (g * 2 ^ 0))
bit_or-shifted zero (suc v) g h = absurd (omega arith)
bit_or-shifted (suc s) v g h = rw (pow_suc s) (
    grind (
      arith,
      pow_suc s,
      bit_or_step v (g * (2 * 2 ^ s)),
      bit_or-shifted s (v / 2) g (omega (arith, pow_suc s)),
      halves,
    ))
  where
    halves : g * (2 * 2 ^ s) ≡ 2 * (g * 2 ^ s)
    halves = grind arith

bit_and_step : (a b : ℕ) → bit_and a b ≡ min (a % 2) (b % 2) + 2 * bit_and (a / 2) (b / 2)
bit_and_step zero b = omega (arith, bit_and-bitwise 0 b, bit_and-bitwise 0 (b / 2))
bit_and_step (suc a) b = omega (
  arith,
  digits_step (λ y. zero) min a b,
  bit_and-bitwise (suc a) b,
  bit_and-bitwise (suc a / 2) (b / 2),
)

no_digits : (n a : ℕ) → digits (λ y. zero) min n a 0 ≡ 0
no_digits zero a = refl
no_digits (suc n) zero = refl
no_digits (suc n) (suc a) = omega (arith, no_digits n (suc a / 2))

bit_and-zero : (a : ℕ) → bit_and a 0 ≡ 0
bit_and-zero a = simp bit_and-bitwise (no_digits a a)

-- `key & 0x07`, for a key of any size.
pub bit_and_seven : (a : ℕ) → bit_and a 7 ≡ a % 8
bit_and_seven a = omega (
  arith,
  bit_and_step a 7,
  bit_and_step (a / 2) 3,
  bit_and_step (a / 2 / 2) 1,
  bit_and-zero (a / 2 / 2 / 2),
)

-- On bytes, two functions that agree in a table of 256 entries.
module _ (f g : ℕ → ℕ) where
  agree : ℕ → Bool
  agree zero = true
  agree (suc n) = eqb (f n) (g n) && agree n

  agree-eq : (n : ℕ) → agree n ≡ true → (i : ℕ) → i < n → f i ≡ g i
  unfolding agree
  agree-eq zero e i h = absurd (omega arith)
  agree-eq (suc n) e i h = ground (arith, agree-eq n (ground arith) i)

-- `byte & 0x7f` and `byte & 0x80`.
pub bit_and_low : (b : ℕ) → b < 256 → bit_and b 0x7f ≡ b % 128
unfolding agree
bit_and_low = agree-eq _ _ 256 refl

pub bit_and_top : (b : ℕ) → b < 256 → bit_and b 0x80 ≡ b / 128 * 128
unfolding agree
bit_and_top = agree-eq _ _ 256 refl
