-- ===== src/Checksums/Closed.antt =====
-- `Fletcher32` and `Adler32` as sums and weighted sums.
use native.Mathlib.Nat.{mod-lt, mod-add-mod, add-mod}
use game_network.Base.{
  ℕ, ◌+◌, ◌*◌, ◌%◌, ◌^◌, ◌<◌, ◌≡◌, refl, sym, ap, arith, List, [], ◌∷◌, ◌++◌, length, ok,
  get_elem?-append, pass, length-snoc,
}
use game_network.Base.Bits.{bit_or_fields}
use game_network.Checksums.{reduced_loop, fletcher32, adler32, joined}
use game_network.Checksums.Plain.{
  AreWords, sum_of, sum_of_sums, sum, weighted, sum_of-eq, sum_of_sums-eq,
}

-- Reducing in every round gives the remainders of the sums.
reduced_loop-sums :
    (m i a b : ℕ) (passed ws rest : List ℕ)
    → 0 < m
    → m < 2 ^ 16
    → length passed ≡ i
    → AreWords ws
    → reduced_loop m (length ws) i (passed ++ (ws ++ rest)) (a % m) (b % m)
      ≡ ok (sum_of a ws % m, sum_of_sums a b ws % m)
unfolding reduced_loop sum_of sum_of_sums
reduced_loop-sums m i a b passed [] rest pos small e h = refl
reduced_loop-sums m i a b passed (w ∷ ws) rest pos small e h =
    rw
      (
        get_elem?-append i passed w (ws ++ rest) e,
        a_step,
        b_step,
        pass passed w (ws ++ rest),
        ← e,
        ← length-snoc passed w,
      )
      (reduced_loop-sums m (length (passed ++ w ∷ [])) (a + w) (b + (a + w)) (passed ++ w ∷ []) ws
        rest pos small refl h.1)
  where
    a_step : (a % m + w) % 2 ^ 32 % m ≡ (a + w) % m
    a_step =
        let below : a % m < m = mod-lt a pos in
        let fits : (a % m + w) % 2 ^ 32 ≡ a % m + w = omega arith in rw fits (mod-add-mod a m w)

    b_step : (b % m + (a + w) % m) % 2 ^ 32 % m ≡ (b + (a + w)) % m
    b_step =
        let below : b % m < m = mod-lt b pos in
        let below' : (a + w) % m < m = mod-lt (a + w) pos in
        let fits : (b % m + (a + w) % m) % 2 ^ 32 ≡ b % m + (a + w) % m = omega arith in
        rw fits (sym (add-mod b (a + w) m))

pub joined-eq : (a b : ℕ) → a < 2 ^ 16 → b < 2 ^ 16 → joined a b ≡ 65536 * b + a
joined-eq a b p q =
    let fits : b * 2 ^ 16 % 2 ^ 32 ≡ b * 2 ^ 16 = omega arith in
    rw (fits, bit_or_fields 16 b a p) (omega arith)

-- `Fletcher32` of 16-bit words is their sum in the low half, and in the high half their sum where
-- each word counts once for every word from it to the end, both modulo 65535. It reads no other.
pub fletcher32-sums :
    (ws rest : List ℕ)
    → AreWords ws
    → fletcher32 (ws ++ rest) (length ws) ≡ ok (65536 * (weighted ws % 65535) + sum ws % 65535)
unfolding fletcher32
fletcher32-sums ws rest h =
    rw
      (
        reduced_loop-sums 65535 0 0 0 [] ws rest (omega arith) (omega arith) refl h,
        joined-eq (sum_of 0 ws % 65535) (sum_of_sums 0 0 ws % 65535) (omega arith) (omega arith),
      )
      (ap ok (omega (arith, sum_of-eq 0 ws, sum_of_sums-eq 0 0 ws)))

-- `Adler32` of 16-bit words is one more than their sum in the low half, and in the high half their
-- number more than their sum where each counts once for every word from it to the end, both modulo
-- 65521. It reads no other.
pub adler32-sums :
    (ws rest : List ℕ)
    → AreWords ws
    → adler32 (ws ++ rest) (length ws)
      ≡ ok (65536 * ((length ws + weighted ws) % 65521) + (1 + sum ws) % 65521)
unfolding adler32
adler32-sums ws rest h =
    rw
      (
        reduced_loop-sums 65521 0 1 0 [] ws rest (omega arith) (omega arith) refl h,
        joined-eq (sum_of 1 ws % 65521) (sum_of_sums 1 0 ws % 65521) (omega arith) (omega arith),
      )
      (ap ok (omega (arith, sum_of-eq 1 ws, sum_of_sums-eq 1 0 ws)))
