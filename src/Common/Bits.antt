-- ===== src/Common/Bits.antt =====
-- `bit_or` at variables: the law of the lowest digit, and the sum of a shifted number and a digit.
use Prim.Native.Nat.{
  ℕ, zero, suc, ◌+◌, ◌*◌, ◌/◌, ◌%◌, ◌≤◌, ◌<◌, max, bit_or, digits, bit_or-bitwise,
}
use mathlib.Core.Path.{◌≡◌, refl}
use native.Mathlib.Omega.{arith}

abbrev or_digits : ℕ → ℕ → ℕ → ℕ
or_digits n a b = digits (λ b. b) max n a b

-- any fuel from `a` on gives the same digits
or_digits_fuel : (n m a b : ℕ) → a ≤ n → a ≤ m → or_digits n a b ≡ or_digits m a b
or_digits_fuel zero zero a b p q = refl
or_digits_fuel zero (suc m) zero b p q = refl
or_digits_fuel zero (suc m) (suc a) b p q = absurd (omega arith)
or_digits_fuel (suc n) zero zero b p q = refl
or_digits_fuel (suc n) zero (suc a) b p q = absurd (omega arith)
or_digits_fuel (suc n) (suc m) zero b p q = refl
or_digits_fuel (suc n) (suc m) (suc a) b p q =
    omega (arith, or_digits_fuel n m (suc a / 2) (b / 2) (omega arith) (omega arith))

zero-bit_or : (b : ℕ) → bit_or 0 b ≡ b
zero-bit_or b = bit_or-bitwise 0 b

bit_or_step : (a b : ℕ) → bit_or a b ≡ bit_or (a / 2) (b / 2) * 2 + max (a % 2) (b % 2)
bit_or_step zero b = omega (arith, zero-bit_or b, zero-bit_or (b / 2))
bit_or_step (suc a) b = omega (
  arith,
  bit_or-bitwise (suc a) b,
  bit_or-bitwise (suc a / 2) (b / 2),
  or_digits_fuel a (suc a / 2) (suc a / 2) (b / 2) (omega arith) (omega arith),
)

bit_or-zero_fuel : (n a : ℕ) → a ≤ n → bit_or a 0 ≡ a
bit_or-zero_fuel n zero h = refl
bit_or-zero_fuel zero (suc a) h = absurd (omega arith)
bit_or-zero_fuel (suc n) (suc a) h =
    omega (arith, bit_or_step (suc a) 0, bit_or-zero_fuel n (suc a / 2) (omega arith))

bit_or-zero : (a : ℕ) → bit_or a 0 ≡ a
bit_or-zero a = bit_or-zero_fuel a a (omega arith)

-- `(v << 4) | d` for a hex digit `d`: the two share no bit, so the result is their sum
pub bit_or_nibble : (v d : ℕ) → d < 16 → bit_or (v * 16) d ≡ v * 16 + d
bit_or_nibble v d h = omega (
  arith,
  bit_or_step (v * 16) d,
  bit_or_step (v * 16 / 2) (d / 2),
  bit_or_step (v * 16 / 2 / 2) (d / 2 / 2),
  bit_or_step (v * 16 / 2 / 2 / 2) (d / 2 / 2 / 2),
  e,
)
  where
    e : bit_or (v * 16 / 2 / 2 / 2 / 2) (d / 2 / 2 / 2 / 2) ≡ v
    e =
        rw
          (
            let x : v * 16 / 2 / 2 / 2 / 2 ≡ v = omega arith in x,
            let y : d / 2 / 2 / 2 / 2 ≡ 0 = omega arith in y,
          )
          (bit_or-zero v)
