-- ===== src/Checksums/Plain.antt =====
-- The two sums of Fletcher's checksum as numbers, without reduction.
use game_network.Base.{
  ℕ, zero, suc, ◌+◌, ◌*◌, ◌/◌, ◌%◌, ◌^◌, ◌≤◌, ◌<◌, ◌≡◌, refl, ap, arith, List, [], ◌∷◌, ◌++◌,
  length, ok,
}
use native.Mathlib.Nat.{mul-le-mul_left}
use game_network.Checksums.{plain_loop}

-- Every word is of 16 bits.
abbrev pub AreWords : List ℕ → Type 0
AreWords [] = Unit {0}
AreWords (w ∷ ws) = (w < 2 ^ 16) × AreWords ws

-- The sum of the words, and the sum of the sums after each word, from given sums.
unfoldable pub sum_of : ℕ → List ℕ → ℕ
sum_of a [] = a
sum_of a (w ∷ ws) = sum_of (a + w) ws

unfoldable pub sum_of_sums : ℕ → ℕ → List ℕ → ℕ
sum_of_sums a b [] = b
sum_of_sums a b (w ∷ ws) = sum_of_sums (a + w) (b + (a + w)) ws

-- Sums with which `k` more words leave `sumB` below 2 ^ 32.
abbrev pub Fits : ℕ → ℕ → ℕ → Type 0
Fits k a b = (a + k * 65535 < 2 ^ 32) × (2 * b + 2 * (k * a) + 65535 * (k * k + k) < 2 ^ 33)

Fits-next : (k a b w : ℕ) → w < 2 ^ 16 → Fits (suc k) a b → Fits k (a + w) (b + (a + w))
Fits-next k a b w h f =
    let less : k * w ≤ k * 65535 = mul-le-mul_left k (omega arith) in (omega arith, omega arith)

-- Without a reduction, up to `k` words.
pub plain_loop-sums :
    (k a b : ℕ) (ws rest : List ℕ)
    → length ws ≤ k
    → AreWords ws
    → Fits k a b
    → plain_loop (length ws) (record { rest = ws ++ rest; sum_a = a; sum_b = b })
      ≡ ok (record { rest = rest; sum_a = sum_of a ws; sum_b = sum_of_sums a b ws })
unfolding plain_loop sum_of sum_of_sums
plain_loop-sums k a b [] rest h w f = refl
plain_loop-sums zero a b (w ∷ ws) rest h ok_words f = absurd (omega arith)
plain_loop-sums (suc k) a b (w ∷ ws) rest h ok_words f =
    let a_fits : (a + w) % 2 ^ 32 ≡ a + w = omega arith in
    let b_fits : (b + (a + w)) % 2 ^ 32 ≡ b + (a + w) = omega arith in
    rw (a_fits, b_fits)
      (plain_loop-sums k (a + w) (b + (a + w)) ws rest (omega arith) ok_words.1
        (Fits-next k a b w ok_words.0 f))

-- The same without a loop: the words' sum, and their sum where each counts once for every word
-- from it to the end.
unfoldable pub sum : List ℕ → ℕ
sum [] = 0
sum (w ∷ ws) = w + sum ws

unfoldable pub weighted : List ℕ → ℕ
weighted [] = 0
weighted (w ∷ ws) = suc (length ws) * w + weighted ws

pub sum_of-eq : (a : ℕ) (ws : List ℕ) → sum_of a ws ≡ a + sum ws
unfolding sum_of sum
sum_of-eq a [] = omega arith
sum_of-eq a (w ∷ ws) = omega (arith, sum_of-eq (a + w) ws)

pub sum_of_sums-eq : (a b : ℕ) (ws : List ℕ) → sum_of_sums a b ws ≡ b + length ws * a + weighted ws
unfolding sum_of_sums weighted
sum_of_sums-eq a b [] = omega arith
sum_of_sums-eq a b (w ∷ ws) = omega (arith, sum_of_sums-eq (a + w) (b + (a + w)) ws)

pub sum_of-append : (a : ℕ) (xs ys : List ℕ) → sum_of a (xs ++ ys) ≡ sum_of (sum_of a xs) ys
unfolding sum_of
sum_of-append a [] ys = refl
sum_of-append a (x ∷ xs) ys = sum_of-append (a + x) xs ys

pub sum_of_sums-append :
    (a b : ℕ) (xs ys : List ℕ)
    → sum_of_sums a b (xs ++ ys) ≡ sum_of_sums (sum_of a xs) (sum_of_sums a b xs) ys
unfolding sum_of sum_of_sums
sum_of_sums-append a b [] ys = refl
sum_of_sums-append a b (x ∷ xs) ys = sum_of_sums-append (a + x) (b + (a + x)) xs ys

pub sum_of-mod : (a : ℕ) (ws : List ℕ) → sum_of (a % 65535) ws % 65535 ≡ sum_of a ws % 65535
sum_of-mod a ws = omega (arith, sum_of-eq a ws, sum_of-eq (a % 65535) ws)

pub sum_of_sums-mod :
    (a b : ℕ) (ws : List ℕ)
    → sum_of_sums (a % 65535) (b % 65535) ws % 65535 ≡ sum_of_sums a b ws % 65535
sum_of_sums-mod a b ws =
    let split : a ≡ 65535 * (a / 65535) + a % 65535 = omega arith in
    omega (
      arith,
      sum_of_sums-eq a b ws,
      sum_of_sums-eq (a % 65535) (b % 65535) ws,
      ap (λ (t : ℕ). length ws * t) split,
    )
