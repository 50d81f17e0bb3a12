-- ===== src/Base/Bits/Step.antt =====
-- One round of the native bit operations: the lowest digit, and the operation on the other digits.
use Prim.Native.Nat.{
  ℕ, zero, suc, ◌+◌, ◌*◌, ◌/◌, ◌%◌, ◌≤◌, ◌<◌, min, max, digits, bitwise, bit_and, bit_or, bit_xor,
  bit_and-bitwise, bit_or-bitwise, bit_xor-bitwise, differ,
}
use mathlib.Core.Path.{◌≡◌, refl}
use native.Mathlib.Omega.{arith}

-- `differ` is the sum of two bits, modulo 2.
differ_bits : (x y : ℕ) → x < 2 → y < 2 → differ x y ≡ (x + y) % 2
differ_bits (suc (suc x)) y p q = absurd (omega arith)
differ_bits zero y p q = omega arith
differ_bits (suc zero) (suc (suc y)) p q = absurd (omega arith)
differ_bits (suc zero) zero p q = refl
differ_bits (suc zero) (suc zero) p q = refl

module _ (at_end : ℕ → ℕ) (of_bits : ℕ → ℕ → ℕ) where
  -- Fuel that is enough for a number gives the same digits, however much it is.
  enough :
      (x y left right : ℕ)
      → x ≤ right
      → x ≤ left
      → digits at_end of_bits left x y ≡ digits at_end of_bits right x y
  enough (suc x) y (suc left) (suc right) over below =
      rw (enough (suc x / 2) (y / 2) left right (omega arith) (omega arith))
  enough zero y (suc left) (suc right) over below = refl
  enough zero y (suc left) zero over below = refl
  enough zero y zero (suc right) over below = refl
  enough zero y zero zero over below = refl
  enough (suc x) y zero right over below = absurd (omega arith)
  enough (suc x) y (suc left) zero over below = absurd (omega arith)

  round :
      (x y : ℕ)
      → bitwise at_end of_bits (suc x) y
        ≡ of_bits (suc x % 2) (y % 2) + 2 * bitwise at_end of_bits (suc x / 2) (y / 2)
  round x y = omega (arith, enough (suc x / 2) (y / 2) x (suc x / 2) (omega arith) (omega arith))

pub bit_and_step : (m n : ℕ) → bit_and m n ≡ bit_and (m / 2) (n / 2) * 2 + min (m % 2) (n % 2)
bit_and_step (suc m) n =
    let digit = round (λ y. 0) min m n in simp bit_and-bitwise (omega (arith, digit))
bit_and_step zero n = simp bit_and-bitwise (omega arith)

pub bit_xor_step : (m n : ℕ) → bit_xor m n ≡ bit_xor (m / 2) (n / 2) * 2 + (m + n) % 2
bit_xor_step (suc m) n =
    let lowest = differ_bits (suc m % 2) (n % 2) (omega arith) (omega arith) in
    simp bit_xor-bitwise (omega (arith, round (λ y. y) differ m n, lowest))
bit_xor_step zero n = simp bit_xor-bitwise (omega arith)

pub bit_or_step : (m n : ℕ) → bit_or m n ≡ bit_or (m / 2) (n / 2) * 2 + max (m % 2) (n % 2)
bit_or_step (suc m) n =
    let digit = round (λ y. y) max m n in simp bit_or-bitwise (omega (arith, digit))
bit_or_step zero n = simp bit_or-bitwise (omega arith)
