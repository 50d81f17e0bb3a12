-- ===== src/Crc/Reverse.antt =====
-- What `ReverseBits` computes.
use mathlib.Core.WellFounded.{Acc}
use native.Mathlib.Nat.{pow-suc, mul-le-mul_right}
use game_network.Base.{
  ℕ, zero, suc, ◌+◌, ◌-◌, ◌*◌, ◌/◌, ◌%◌, ◌^◌, ◌≤◌, ◌<◌, ◌≡◌, refl, ◌∙◌, ap, bit_and, bit_or, arith,
  dec_lt,
}
use game_network.Base.Bits.{bit_or-bit, bit_and-one}
use game_network.Base.Order.{lt_wf}
use game_network.Crc.{
  reverse_loop, reverse_loop-more, reverse_loop-done, reverse_bits, half_lt, u32,
}

-- The lowest `n` bits in reverse.
unfoldable pub reversed : ℕ → ℕ → ℕ
reversed zero p = 0
reversed (suc n) p = p % 2 * 2 ^ n + reversed n (p / 2)

pub reversed-lt : (n p : ℕ) → reversed n p < 2 ^ n
unfolding reversed
reversed-lt zero p = omega arith
reversed-lt (suc n) p =
    let digit : p % 2 * 2 ^ n ≤ 1 * 2 ^ n = mul-le-mul_right (2 ^ n) (omega arith) in
    omega (arith, pow-suc 2 n, reversed-lt n (p / 2))

reversed-zero : (n : ℕ) → reversed n 0 ≡ 0
unfolding reversed
reversed-zero zero = refl
reversed-zero (suc n) = omega (arith, reversed-zero n)

-- One digit moves from `p` to `reverse`.
digit_moves :
    (reverse n p : ℕ)
    → u32 (bit_or (u32 (reverse * 2)) (bit_and p 1) * 2 ^ n + reversed n (p / 2))
      ≡ u32 (reverse * 2 ^ suc n + reversed (suc n) p)
unfolding reversed
digit_moves reverse n p =
    let even : reverse * 2 % 2 ^ 32 ≡ 2 * (reverse % 2 ^ 31) = omega arith in
    let split : reverse ≡ 2 ^ 31 * (reverse / 2 ^ 31) + reverse % 2 ^ 31 = omega arith in
    rw (bit_and-one p, even, bit_or-bit (reverse % 2 ^ 31) (p % 2) (omega arith))
      (omega (arith, ap (λ (t : ℕ). t * 2 ^ n) split, ap (λ (t : ℕ). reverse * t) (pow-suc 2 n)))

-- The loop leaves a value that is shifted to the bits before, and behind them those of `p` in
-- reverse.
reverse_loop-value :
    (p : ℕ) (acc : Acc ◌<◌ p) (reverse n : ℕ)
    → p < 2 ^ n
    → n < 2 ^ 32
    → u32 ((reverse_loop p acc reverse n).0 * 2 ^ (reverse_loop p acc reverse n).1)
      ≡ u32 (reverse * 2 ^ n + reversed n p)
reverse_loop-value p acc reverse zero h q =
    let e : p ≡ 0 = omega arith in
    rw (reverse_loop-done p acc reverse 0 (omega arith)) (unfold reversed in omega arith)
reverse_loop-value p (Acc.intro _ smaller) reverse (suc n) h q = elim (dec_lt 0 p) [
  | no none_left ↦
      let e : p ≡ 0 = omega arith in
      rw (reverse_loop-done p (Acc.intro p smaller) reverse (suc n) none_left)
        (omega (arith, ap (reversed (suc n)) e, reversed-zero (suc n)))
  | yes more ↦
      let ih =
        reverse_loop-value (p / 2) (smaller (p / 2) (half_lt p more))
          (bit_or (u32 (reverse * 2)) (bit_and p 1)) n (omega (arith, pow-suc 2 n)) (omega arith) in
      let count : u32 (suc n + 2 ^ 32 - 1) ≡ n = omega arith in
      rw (reverse_loop-more p smaller reverse (suc n) more, count) (ih ∙ digit_moves reverse n p)
]

-- At most the bits that were there are left.
reverse_loop-left :
    (p : ℕ) (acc : Acc ◌<◌ p) (reverse n : ℕ)
    → p < 2 ^ n
    → n ≤ 32
    → (reverse_loop p acc reverse n).1 ≤ n
reverse_loop-left p acc reverse zero h q =
    rw (reverse_loop-done p acc reverse 0 (omega arith)) (omega arith)
reverse_loop-left p (Acc.intro _ smaller) reverse (suc n) h q = elim (dec_lt 0 p) [
  | no none_left ↦
      rw (reverse_loop-done p (Acc.intro p smaller) reverse (suc n) none_left) (omega arith)
  | yes more ↦
      let ih =
        reverse_loop-left (p / 2) (smaller (p / 2) (half_lt p more))
          (bit_or (u32 (reverse * 2)) (bit_and p 1)) n (omega (arith, pow-suc 2 n)) (omega arith) in
      let count : u32 (suc n + 2 ^ 32 - 1) ≡ n = omega arith in
      rw (reverse_loop-more p smaller reverse (suc n) more, count) (omega (arith, ih))
]

-- Of a number that is not 0, fewer.
reverse_loop-fewer :
    (p : ℕ) (acc : Acc ◌<◌ p) (reverse n : ℕ)
    → p < 2 ^ n
    → n ≤ 32
    → 0 < p
    → (reverse_loop p acc reverse n).1 < n
reverse_loop-fewer p acc reverse zero h q more = absurd (omega arith)
reverse_loop-fewer p (Acc.intro _ smaller) reverse (suc n) h q more =
    let ih =
      reverse_loop-left (p / 2) (smaller (p / 2) (half_lt p more))
        (bit_or (u32 (reverse * 2)) (bit_and p 1)) n (omega (arith, pow-suc 2 n)) (omega arith) in
    let count : u32 (suc n + 2 ^ 32 - 1) ≡ n = omega arith in
    rw (reverse_loop-more p smaller reverse (suc n) more, count) (omega (arith, ih))

-- The last shift is by less than the width of the type.
last_shift :
    (p n : ℕ) → p < 2 ^ n → n ≤ 32 → (p ≡ 0 → n < 32) → (reverse_loop p (lt_wf.apply p) p n).1 < 32
last_shift p n h q defined = elim (dec_lt 0 p) [
  | yes more ↦ omega (arith, reverse_loop-fewer p (lt_wf.apply p) p n h q more)
  | no none_left ↦ omega (arith, reverse_loop-left p (lt_wf.apply p) p n h q, defined (omega arith))
]

-- For a number of `n` bits, 32 at most and fewer where it is 0, the last shift is by less than 32, and
-- the result has the bits in reverse, and above them the number itself, as far as 32 bits hold it.
pub reverse_bits-eq :
    (p n : ℕ)
    → p < 2 ^ n
    → n ≤ 32
    → (p ≡ 0 → n < 32)
    → ((reverse_loop p (lt_wf.apply p) p n).1 < 32)
      × (reverse_bits p n ≡ u32 (p * 2 ^ n + reversed n p))
unfolding reverse_bits
reverse_bits-eq p n h q defined =
    let few = last_shift p n h q defined in
    let same : (reverse_loop p (lt_wf.apply p) p n).1 % 32
        ≡ (reverse_loop p (lt_wf.apply p) p n).1 =
      omega (arith, few) in
    (few, rw same (reverse_loop-value p (lt_wf.apply p) p n h (omega arith)))

-- Of a byte, the number stands above the 8 bits that the callers take.
pub reverse_bits-byte : (p : ℕ) → p < 256 → reverse_bits p 8 ≡ p * 256 + reversed 8 p
reverse_bits-byte p h =
    omega (arith, (reverse_bits-eq p 8 h (omega arith) (λ e. omega arith)).1, reversed-lt 8 p)
