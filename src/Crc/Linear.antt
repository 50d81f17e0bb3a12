-- ===== src/Crc/Linear.antt =====
-- Division by the polynomial is linear: lower bits may be added before or after.
use native.Mathlib.Nat.{pow-suc, one-le-pow, le-mul_of_pos_right}
use game_network.Base.{
  ℕ, zero, suc, ◌+◌, ◌*◌, ◌/◌, ◌%◌, ◌^◌, ◌≤◌, ◌<◌, ◌≡◌, refl, sym, ◌∙◌, ap, ap₂, bit_and, bit_xor,
  arith, dec_lt,
}
use game_network.Base.Bits.{
  bit_xor_comm, bit_xor_assoc, bit_xor_fields, bit_xor-lt, bit_xor-zero, bit_xor-double,
  bit_and_fields, bit_and-one, bit_and-zero,
}
use game_network.Crc.{divide_bit, bit_loop, polynomial, top_bit}

-- Whether the highest of 32 bits is set.
top_bit_test : (r : ℕ) → r < 2 ^ 32 → bit_and r top_bit ≡ r / 2 ^ 31 * 2 ^ 31
top_bit_test r h =
    let split : r ≡ r / 2 ^ 31 * 2 ^ 31 + r % 2 ^ 31 = omega arith in
    ap (λ t. bit_and t top_bit) split
    ∙ bit_and_fields 31 (r / 2 ^ 31) (r % 2 ^ 31) 1 0 (omega arith) (omega arith)
    ∙ omega (arith, bit_and-one (r / 2 ^ 31), bit_and-zero (r % 2 ^ 31))

polynomial_word : (x : ℕ) → x < 2 ^ 32 → bit_xor x polynomial < 2 ^ 32
polynomial_word x h = bit_xor-lt 32 x polynomial h (omega arith)

divide_bit-low : (r : ℕ) → r < 2 ^ 31 → divide_bit r ≡ 2 * r
unfolding divide_bit
divide_bit-low r h = ground (arith, top_bit_test r)

divide_bit-high :
    (r : ℕ) → 2 ^ 31 ≤ r → r < 2 ^ 32 → divide_bit r ≡ bit_xor (2 * (r % 2 ^ 31)) polynomial
unfolding divide_bit
divide_bit-high r h h' =
    let set : bit_and r top_bit ≡ 2 ^ 31 = omega (arith, top_bit_test r h') in
    let doubled : r * 2 % 2 ^ 32 ≡ 2 * (r % 2 ^ 31) = omega arith in
    rw (set, doubled) (omega (arith, polynomial_word (2 * (r % 2 ^ 31)) (omega arith)))

pub divide_bit-lt : (r : ℕ) → divide_bit r < 2 ^ 32
unfolding divide_bit
divide_bit-lt r = ground arith

-- The exclusive or with a number below 2 ^ 31 leaves the top bit.
xor_low :
    (a b : ℕ) → a < 2 ^ 32 → b < 2 ^ 31 → bit_xor a b ≡ a / 2 ^ 31 * 2 ^ 31 + bit_xor (a % 2 ^ 31) b
xor_low a b h h' =
    let split : a ≡ a / 2 ^ 31 * 2 ^ 31 + a % 2 ^ 31 = omega arith in
    ap₂ bit_xor split (omega arith)
    ∙ bit_xor_fields 31 (a / 2 ^ 31) (a % 2 ^ 31) 0 b (omega arith) h'
    ∙ omega (arith, bit_xor-zero (a / 2 ^ 31))

bit_xor_swap : (x y z : ℕ) → bit_xor (bit_xor x y) z ≡ bit_xor (bit_xor x z) y
bit_xor_swap x y z =
    bit_xor_assoc x y z ∙ ap (bit_xor x) (bit_xor_comm y z) ∙ sym (bit_xor_assoc x z y)

divide_bit-xor :
    (a b : ℕ) → a < 2 ^ 32 → b < 2 ^ 31 → divide_bit (bit_xor a b) ≡ bit_xor (divide_bit a) (2 * b)
divide_bit-xor a b h h' = elim (dec_lt a (2 ^ 31)) [
  | yes low ↦
      rw
        (
          divide_bit-low (bit_xor a b) (bit_xor-lt 31 a b low h'),
          divide_bit-low a low,
          bit_xor-double a b,
        )
        refl
  | no high ↦
      let c = bit_xor a b in
      let below : bit_xor (a % 2 ^ 31) b < 2 ^ 31 = bit_xor-lt 31 _ b (omega arith) h' in
      let lower : c % 2 ^ 31 ≡ bit_xor (a % 2 ^ 31) b = omega (arith, xor_low a b h h') in
      rw
        (
          divide_bit-high c (omega (arith, xor_low a b h h')) (omega (arith, xor_low a b h h')),
          divide_bit-high a (omega arith) h,
          lower,
          ← bit_xor-double (a % 2 ^ 31) b,
        )
        (bit_xor_swap (2 * (a % 2 ^ 31)) (2 * b) polynomial)
]

pub bit_loop-lt : (n r : ℕ) → r < 2 ^ 32 → bit_loop n r < 2 ^ 32
unfolding bit_loop
bit_loop-lt zero r h = h
bit_loop-lt (suc n) r h = bit_loop-lt n (divide_bit r) (divide_bit-lt r)

pub bit_loop-xor :
    (n a b : ℕ)
    → a < 2 ^ 32
    → b * 2 ^ n < 2 ^ 32
    → bit_loop n (bit_xor a b) ≡ bit_xor (bit_loop n a) (b * 2 ^ n)
unfolding bit_loop
bit_loop-xor zero a b h h' = ap (bit_xor a) (omega arith)
bit_loop-xor (suc n) a b h h' =
    let double : 2 * b * 2 ^ n ≡ b * 2 ^ suc n =
      omega (arith, ap (λ (t : ℕ). b * t) (pow-suc 2 n)) in
    let small : b ≤ b * 2 ^ n = le-mul_of_pos_right b (one-le-pow n 2 (omega arith)) in
    rw (divide_bit-xor a b h (omega arith), ← double)
      (bit_loop-xor n (divide_bit a) (2 * b) (divide_bit-lt a) (omega arith))
