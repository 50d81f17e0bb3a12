-- ===== src/Crc.antt =====
-- ErrorDetection/CRC.h and CRC.cpp. `uint_fast32_t` is of 32 bits, as with the program's compiler.
pub mod Reverse
pub mod Linear
pub mod Table
use mathlib.Core.Logic.{dite, dif_pos, dif_neg}
use mathlib.Core.WellFounded.{Acc}
use native.Mathlib.Bridge.{le_prop}
use game_network.Base.{
  ℕ, zero, suc, ◌+◌, ◌-◌, ◌*◌, ◌/◌, ◌%◌, ◌^◌, ◌<◌, ◌≡◌, bit_and, bit_or, bit_xor, arith, Bool, true,
  false, if◌then◌else◌, ◌==◌, List, [], get_elem?, set, replicate, Result, ok, ◌>>=◌, accessed,
  dec_lt,
}
use game_network.Base.Order.{lt_wf}

abbrev pub u32 : ℕ → ℕ
u32 n = n % 2 ^ 32

abbrev pub polynomial : ℕ
polynomial = 0x04c11db7

abbrev pub top_bit : ℕ
top_bit = 2 ^ 31

abbrev pub all_ones : ℕ
all_ones = 0xffff_ffff

-- `table` and `isTableInit`.
pub record Statics : Type 0 where
  pub table : List ℕ
  pub is_table_init : Bool

abbrev pub program_start : Statics
program_start = record { table = replicate 256 0; is_table_init = false }

pub half_lt : (p : ℕ) → 0 < p → p / 2 < p
half_lt p h = omega arith

-- `while (p_number)` of `ReverseBits`, over `p_number`, `reverse` and `p_nBits`.
unfoldable pub reverse_loop : (p : ℕ) → Acc ◌<◌ p → ℕ → ℕ → ℕ × ℕ
unfolding half_lt
reverse_loop p (Acc.intro _ smaller) reverse n =
    dite (dec_lt 0 p)
      (λ h.
        reverse_loop (p / 2) (smaller (p / 2) (half_lt p h))
          (bit_or (u32 (reverse * 2)) (bit_and p 1)) (u32 (n + 2 ^ 32 - 1)))
      (λ h. (reverse, n))

-- The last shift is undefined where 32 bits or more are left. It is the one of x86 here, by the count
-- modulo 32.
unfoldable pub reverse_bits : ℕ → ℕ → ℕ
unfolding reverse_loop lt_wf
reverse_bits p n =
    let (reverse, left) = reverse_loop p (lt_wf.apply p) p n in u32 (reverse * 2 ^ (left % 32))

-- A round of the loop over `bit`.
unfoldable pub divide_bit : ℕ → ℕ
divide_bit remainder =
    if bit_and remainder top_bit == 0
    then u32 (remainder * 2)
    else u32 (bit_xor (u32 (remainder * 2)) polynomial)

-- `for (unsigned char bit = 8; bit > 0; --bit)`, with the rounds that are left.
unfoldable pub bit_loop : ℕ → ℕ → ℕ
unfolding divide_bit
bit_loop zero remainder = remainder
bit_loop (suc bit) remainder = bit_loop bit (divide_bit remainder)

-- `for (int dividend = 0; dividend < 256; ++dividend)`, with the rounds that are left.
unfoldable pub table_loop : ℕ → ℕ → List ℕ → List ℕ
unfolding bit_loop
table_loop zero dividend table = table
table_loop (suc left) dividend table =
    table_loop left (dividend + 1) (set table dividend (bit_loop 8 (u32 (dividend * 2 ^ 24))))

unfoldable pub init_table : Statics → Statics
unfolding table_loop
init_table s =
    if s.is_table_init then s else record { table = table_loop 256 0 s.table; is_table_init = true }

-- The loop of `GetCRCTableBased` at `byte`, with the rounds that are left.
unfoldable pub table_based_loop : List ℕ → ℕ → ℕ → List ℕ → ℕ → Result ℕ
unfolding reverse_bits
table_based_loop table zero byte bytes remainder = ok remainder
table_based_loop table (suc left) byte bytes remainder = do
  b ← accessed (get_elem? bytes byte)
  t ← accessed (get_elem? table (bit_xor (reverse_bits b 8) (remainder / 2 ^ 24) % 2 ^ 8))
  table_based_loop table left (byte + 1) bytes (bit_xor t (u32 (remainder * 2 ^ 8)))

unfoldable pub get_crc_table_based : Statics → List ℕ → ℕ → Result ℕ
unfolding table_based_loop reverse_bits
get_crc_table_based s bytes n = do
  remainder ← table_based_loop s.table n 0 bytes all_ones
  ok (bit_xor (reverse_bits remainder 32) all_ones)

-- The loop of `GetCRC` at `byte`, with the rounds that are left.
unfoldable pub crc_loop : ℕ → ℕ → List ℕ → ℕ → Result ℕ
unfolding reverse_bits bit_loop
crc_loop zero byte message remainder = ok remainder
crc_loop (suc left) byte message remainder = do
  b ← accessed (get_elem? message byte)
  crc_loop left (byte + 1) message
      (bit_loop 8 (bit_xor remainder (u32 (reverse_bits b 8 * 2 ^ 24))))

unfoldable pub get_crc : List ℕ → ℕ → Result ℕ
unfolding crc_loop reverse_bits
get_crc message n = do
  remainder ← crc_loop n 0 message all_ones
  ok (bit_xor (reverse_bits remainder 32) all_ones)

-- The two branches of `while (p_number)`.
pub reverse_loop-more :
    (p : ℕ) (smaller : (q : ℕ) → q < p → Acc ◌<◌ q) (reverse n : ℕ) (h : 0 < p)
    → reverse_loop p (Acc.intro p smaller) reverse n
      ≡ reverse_loop
          (p / 2)
          (smaller (p / 2) (half_lt p h))
          (bit_or (u32 (reverse * 2)) (bit_and p 1))
          (u32 (n + 2 ^ 32 - 1))
unfolding reverse_loop
reverse_loop-more p smaller reverse n h = dif_pos (dec_lt 0 p) le_prop h _ _

pub reverse_loop-done :
    (p : ℕ) (acc : Acc ◌<◌ p) (reverse n : ℕ)
    → ¬ (0 < p)
    → reverse_loop p acc reverse n ≡ (reverse, n)
unfolding reverse_loop
reverse_loop-done p (Acc.intro _ smaller) reverse n h = dif_neg (dec_lt 0 p) h _ _
