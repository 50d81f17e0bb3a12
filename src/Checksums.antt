-- ===== src/Checksums.antt =====
-- ErrorDetection/Checksums.cpp. The arithmetic is that of `uint32_t`. An array is the list of the
-- 16-bit words that can be read behind the pointer; a read past them is a fault.
pub mod Plain
pub mod Closed
pub mod Delayed
use mathlib.Core.Logic.{dite, dif_pos, dif_neg}
use mathlib.Core.WellFounded.{Acc}
use native.Mathlib.Bridge.{le_prop}
use game_network.Base.{
  ℕ, zero, suc, ◌+◌, ◌-◌, ◌*◌, ◌%◌, ◌^◌, ◌<◌, ◌≡◌, refl, ◌∙◌, bit_or, arith, List, [], ◌∷◌,
  get_elem?, Result, ok, fault, ◌>>=◌, accessed, dec_lt,
}
use game_network.Base.Order.{lt_wf}

abbrev pub u32 : ℕ → ℕ
u32 n = n % 2 ^ 32

-- `(sumB << 16) | sumA`
abbrev pub joined : ℕ → ℕ → ℕ
joined a b = bit_or (u32 (b * 2 ^ 16)) a

-- `for (i = 0; i < p_size; ++i)` of `Adler32` and `Fletcher32`, which reduce by `m` in each round:
-- at `i`, with the rounds that are left.
unfoldable pub reduced_loop : ℕ → ℕ → ℕ → List ℕ → ℕ → ℕ → Result (ℕ × ℕ)
reduced_loop m zero i words a b = ok (a, b)
reduced_loop m (suc left) i words a b = do
  w ← accessed (get_elem? words i)
  let a' = u32 (a + w) % m
  reduced_loop m left (i + 1) words a' (u32 (b + a') % m)

unfoldable pub adler32 : List ℕ → ℕ → Result ℕ
unfolding reduced_loop
adler32 words size = do (a, b) ← reduced_loop 65521 size 0 words 1 0; ok (joined a b)

unfoldable pub fletcher32 : List ℕ → ℕ → Result ℕ
unfolding reduced_loop
fletcher32 words size = do (a, b) ← reduced_loop 65535 size 0 words 0 0; ok (joined a b)

-- What the loops of `Fletcher32_improved` change: `p_data`, `sumA` and `sumB`.
pub record Sums : Type 0 where
  pub rest : List ℕ
  pub sum_a : ℕ
  pub sum_b : ℕ

-- `sumA = sumA + *p_data++; sumB = sumB + sumA;`, as often as is left.
unfoldable pub plain_loop : ℕ → Sums → Result Sums
plain_loop zero s = ok s
plain_loop (suc left) s = elim s.rest [
  | [] ↦ fault
  | w ∷ rest ↦
      plain_loop left (record {
        rest = rest;
        sum_a = u32 (s.sum_a + w);
        sum_b = u32 (s.sum_b + u32 (s.sum_a + w));
      })
]

abbrev pub reduce : Sums → Sums
reduce s = record s { sum_a = s.sum_a % 65535; sum_b = s.sum_b % 65535 }

pub size-block_lt : (size : ℕ) → ¬ (size < 360) → size - 360 < size
size-block_lt size h = omega arith

-- `for (…; p_size >= 360; p_size -= 360)`, with the size that is left.
unfoldable pub block_loop : (size : ℕ) → Acc ◌<◌ size → Sums → Result (ℕ × Sums)
unfolding plain_loop
block_loop size (Acc.intro _ smaller) s =
    dite (dec_lt size 360) (λ h. ok (size, s))
      λ h. do
        s' ← plain_loop 360 s
        block_loop (size - 360) (smaller (size - 360) (size-block_lt size h)) (reduce s')

unfoldable pub fletcher32_improved : List ℕ → ℕ → Result ℕ
unfolding block_loop lt_wf
fletcher32_improved words size = do
  (left, s) ← block_loop size (lt_wf.apply size) (record { rest = words; sum_a = 0; sum_b = 0 })
  s' ← plain_loop left s
  ok (joined (reduce s').sum_a (reduce s').sum_b)

-- The two branches of a round.
pub block_loop-few :
    (size : ℕ) (acc : Acc ◌<◌ size) (s : Sums) → size < 360 → block_loop size acc s ≡ ok (size, s)
unfolding block_loop
block_loop-few size (Acc.intro _ smaller) s h = dif_pos (dec_lt size 360) le_prop h _ _

pub block_loop-many :
    (size : ℕ) (smaller : (n : ℕ) → n < size → Acc ◌<◌ n) (s s' : Sums) (h : ¬ (size < 360))
    → plain_loop 360 s ≡ ok s'
    → block_loop size (Acc.intro size smaller) s
      ≡ block_loop (size - 360) (smaller (size - 360) (size-block_lt size h)) (reduce s')
unfolding block_loop
block_loop-many size smaller s s' h e = dif_neg (dec_lt size 360) h _ _ ∙ rw e
