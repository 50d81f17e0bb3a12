-- ===== src/Crc/Table.antt =====
-- The table, and the checksum that is computed from it.
use native.Mathlib.Nat.{add-zero, zero-add}
use game_network.Base.{
  ℕ, zero, suc, ◌+◌, ◌*◌, ◌/◌, ◌%◌, ◌^◌, ◌≤◌, ◌<◌, ◌≡◌, refl, sym, ◌∙◌, ap₂, inl, inr, bit_xor,
  arith, Bool, true, false, List, length, get_elem?, set, length-set, get_elem?-set_self,
  get_elem?-set_ne, length-replicate, some, Option-cases, ℕ_discrete,
}
use game_network.Base.Bits.{bit_xor_comm, bit_xor_fields, bit_xor-lt, bit_xor-zero}
use game_network.Base.Bytes.{AreBytes, get_elem?-AreBytes}
use game_network.Crc.{
  Statics, program_start, bit_loop, table_loop, init_table, table_based_loop, get_crc_table_based,
  crc_loop, get_crc, reverse_bits, u32, all_ones,
}
use game_network.Crc.Reverse.{reversed, reversed-lt, reverse_bits-byte}
use game_network.Crc.Linear.{bit_loop-xor, bit_loop-lt}

-- What eight rounds make of a dividend in the highest byte.
abbrev pub remainder_of : ℕ → ℕ
remainder_of d = bit_loop 8 (u32 (d * 2 ^ 24))

abbrev pub IsFilled : List ℕ → Type 0
IsFilled table = (d : ℕ) → d < 256 → get_elem? table d ≡ some (remainder_of d)

-- The statics as the program keeps them: 256 entries, and filled ones once the flag is set.
pub record IsValid (s : Statics) : Type 0 where
  pub entries : length s.table ≡ 256
  pub filled : s.is_table_init ≡ true → IsFilled s.table

pub program_start-IsValid : IsValid program_start
program_start-IsValid = record { entries = length-replicate {A = ℕ} 256 0; filled = λ e. cc }

length-table_loop : (left i : ℕ) (table : List ℕ) → length (table_loop left i table) ≡ length table
unfolding table_loop
length-table_loop zero i table = refl
length-table_loop (suc left) i table =
    length-table_loop left (i + 1) (set table i (remainder_of i))
    ∙ length-set table i (remainder_of i)

-- The loop leaves the entries before `i`, and fills those from `i`.
table_loop-before :
    (left i d : ℕ) (table : List ℕ)
    → d < i
    → get_elem? (table_loop left i table) d ≡ get_elem? table d
unfolding table_loop
table_loop-before zero i d table h = refl
table_loop-before (suc left) i d table h =
    table_loop-before left (i + 1) d (set table i (remainder_of i)) (omega arith)
    ∙ get_elem?-set_ne table (remainder_of i) (omega arith)

table_loop-from :
    (left i d : ℕ) (table : List ℕ)
    → i ≤ d
    → d < i + left
    → i + left ≤ length table
    → get_elem? (table_loop left i table) d ≡ some (remainder_of d)
unfolding table_loop
table_loop-from zero i d table p q r = absurd (omega arith)
table_loop-from (suc left) i d table p q r = elim (ℕ_discrete i d) [
  | yes e ↦
      table_loop-before left (i + 1) d (set table i (remainder_of i)) (omega arith)
      ∙ rw (← e) (get_elem?-set_self table i (remainder_of i) (omega arith))
  | no ne ↦
      table_loop-from left (i + 1) d (set table i (remainder_of i)) (omega arith) (omega arith)
        (omega (arith, length-set table i (remainder_of i)))
]

init_table_at :
    (table : List ℕ) (flag : Bool)
    → let s : Statics = record { table = table; is_table_init = flag } in
      IsValid s
      → IsValid (init_table s)
        × IsFilled (init_table s).table
        × ((init_table s).is_table_init ≡ true)
unfolding init_table
init_table_at table true v = (v, v.filled refl, refl)
init_table_at table false v = (
  record { entries = length-table_loop 256 0 table ∙ v.entries; filled = λ e. filled },
  filled,
  refl,
)
  where
    filled : IsFilled (table_loop 256 0 table)
    filled d h =
        table_loop-from 256 0 d table (omega arith) (omega arith) (omega (arith, v.entries))

-- After `InitTable` the statics are valid and the table is filled, whether or not it was before.
pub init_table-IsFilled :
    (s : Statics)
    → IsValid s
    → IsValid (init_table s) × IsFilled (init_table s).table × ((init_table s).is_table_init ≡ true)
init_table-IsFilled s v = init_table_at s.table s.is_table_init v

high_byte :
    (r c : ℕ)
    → r < 2 ^ 32
    → bit_xor r (c * 2 ^ 24) ≡ bit_xor (bit_xor (r / 2 ^ 24) c * 2 ^ 24) (r % 2 ^ 24)
high_byte r c h =
    let split : r ≡ r / 2 ^ 24 * 2 ^ 24 + r % 2 ^ 24 = omega arith in
    let low : r % 2 ^ 24 < 2 ^ 24 = omega arith in
    ap₂ bit_xor split (omega arith)
    ∙ bit_xor_fields 24 (r / 2 ^ 24) (r % 2 ^ 24) c 0 low (omega arith)
    ∙ omega (
      arith,
      bit_xor-zero (r % 2 ^ 24),
      bit_xor-zero (bit_xor (r / 2 ^ 24) c),
      bit_xor_comm 0 (r % 2 ^ 24),
      bit_xor_fields 24 (bit_xor (r / 2 ^ 24) c) 0 0 (r % 2 ^ 24) (omega arith) low,
      ap₂ bit_xor (add-zero (bit_xor (r / 2 ^ 24) c * 2 ^ 24)) (zero-add (r % 2 ^ 24)),
    )

-- The index of the table, for the byte `b` and the remainder `r`.
abbrev index_of : ℕ → ℕ → ℕ
index_of b r = bit_xor (reverse_bits b 8) (r / 2 ^ 24) % 2 ^ 8

index_of-eq : (b r : ℕ) → b < 256 → r < 2 ^ 32 → index_of b r ≡ bit_xor (r / 2 ^ 24) (reversed 8 b)
index_of-eq b r p q =
    let c = reversed 8 b in
    let h = r / 2 ^ 24 in
    let c_lt : c < 256 = reversed-lt 8 b in
    let h_lt : h < 256 = omega arith in
    omega (
      arith,
      ap₂ bit_xor (reverse_bits-byte b p) (sym (zero-add h)),
      bit_xor_fields 8 b c 0 h c_lt h_lt,
      bit_xor-lt 8 c h c_lt h_lt,
      bit_xor_comm c h,
    )

-- One byte: the table's entry stands for eight rounds.
byte_step :
    (b r : ℕ)
    → b < 256
    → r < 2 ^ 32
    → bit_xor (remainder_of (index_of b r)) (u32 (r * 2 ^ 8))
      ≡ bit_loop 8 (bit_xor r (u32 (reverse_bits b 8 * 2 ^ 24)))
byte_step b r p q =
    let c = reversed 8 b in
    let x = bit_xor (r / 2 ^ 24) c in
    let c_lt : c < 256 = reversed-lt 8 b in
    let x_lt : x < 256 = bit_xor-lt 8 (r / 2 ^ 24) c (omega arith) c_lt in
    let shifted : reverse_bits b 8 * 2 ^ 24 % 2 ^ 32 ≡ c * 2 ^ 24 =
      omega (arith, reverse_bits-byte b p) in
    let entry : x * 2 ^ 24 % 2 ^ 32 ≡ x * 2 ^ 24 = omega arith in
    let low : r * 2 ^ 8 % 2 ^ 32 ≡ r % 2 ^ 24 * 2 ^ 8 = omega arith in
    rw (shifted, index_of-eq b r p q, entry, low, high_byte r c q)
      (sym (bit_loop-xor 8 (x * 2 ^ 24) (r % 2 ^ 24) (omega arith) (omega arith)))

loops-eq :
    (table : List ℕ) (left i r : ℕ) (bytes : List ℕ)
    → IsFilled table
    → AreBytes bytes
    → r < 2 ^ 32
    → table_based_loop table left i bytes r ≡ crc_loop left i bytes r
unfolding table_based_loop crc_loop
loops-eq table zero i r bytes f h q = refl
loops-eq table (suc left) i r bytes f h q = elim (Option-cases (get_elem? bytes i)) [
  | inl missing ↦ rw missing
  | inr (b, e) ↦
      let b_lt : b < 256 = get_elem?-AreBytes bytes i b h e in
      let ix_lt : index_of b r < 256 = omega arith in
      rw (e, f (index_of b r) ix_lt, byte_step b r b_lt q)
        (loops-eq table left (i + 1) (bit_loop 8 (bit_xor r (u32 (reverse_bits b 8 * 2 ^ 24))))
          bytes f h (bit_loop-lt 8 _ (bit_xor-lt 32 r _ q (omega arith))))
]

-- On bytes, the checksum from the table is the one that divides bit by bit, on every input and at
-- every count, the counts past the end included.
pub get_crc_table_based-eq-get_crc :
    (s : Statics) (bytes : List ℕ) (n : ℕ)
    → IsValid s
    → AreBytes bytes
    → get_crc_table_based (init_table s) bytes n ≡ get_crc bytes n
unfolding get_crc_table_based get_crc
get_crc_table_based-eq-get_crc s bytes n v h =
    rw
      (loops-eq (init_table s).table n 0 all_ones bytes (init_table-IsFilled s v).1 h (omega arith))
