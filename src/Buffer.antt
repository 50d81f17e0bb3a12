-- ===== src/Buffer.antt =====
-- Packets/Buffer.h and Packets/Buffer.cpp: a cursor over bytes.
--
-- `size` is an `int`, and is not the length of the memory: the receiver sets it to what `Receive`
-- returns, which may be -1. `index` is an `int` that starts at 0 and only grows by what a check
-- has let pass, so it is a natural number; the sum in a check of fixed width is that of `int`, for
-- sizes where it does not overflow (below 2 ^ 31 - 8). The checks of `WriteBuffer` and `ReadBuffer`
-- are made in `unsigned`, and wrap.
pub mod Cursor
pub mod Safety
pub mod Contract
pub mod Overflow
pub mod Float
use game_network.Base.{
  ℕ, zero, suc, ◌+◌, ◌%◌, ◌^◌, Bool, true, false, if◌then◌else◌, leb, Option, none, some, List, [],
  ◌∷◌, ◌++◌, length, take, drop, get_elem?, ltb, ◌-◌, Result, ok, throws, fault, out_of_range,
  exception_pointer, ◌>>=◌, accessed,
}
use game_network.Base.Int.{ℤ, pos, negsuc, to_unsigned, leb_ℤ}
use game_network.Base.Bytes.{le_bytes, le_value}
use game_network.Platform.{Host}

-- `memory` is what `data` points to; `none` is nullptr.
pub record Buffer : Type 0 where
  pub memory : Option (List ℕ)
  pub size : ℤ
  pub index : ℕ

-- The bytes at `data + i`; `none` is an access outside of the allocation.
abbrev pub load : ℕ → ℕ → Option (List ℕ) → Option (List ℕ)
load i n none = none
load i n (some m) = if leb (i + n) (length m) then some (take n (drop i m)) else none

abbrev pub store : ℕ → List ℕ → Option (List ℕ) → Option (List ℕ)
store i bs none = none
store i bs (some m) =
    if leb (i + length bs) (length m)
    then some (take i m ++ (bs ++ drop (i + length bs) m))
    else none

-- `Buffer packet;`
abbrev pub no_buffer : Buffer
no_buffer = record { memory = none; size = pos 0; index = 0 }

-- `~Buffer`, with the object as it leaves it: the memory is given back.
abbrev pub destroy_buffer : Buffer → Buffer
destroy_buffer b = elim b.memory [ none ↦ b | some m ↦ record b { memory = none } ]

-- The conversion of an `unsigned` to `int`.
abbrev pub to_int : ℕ → ℤ
to_int n = if ltb n (2 ^ 31) then pos n else negsuc (2 ^ 32 - n - 1)

module _ (h : Host) where
  unfoldable pub new_buffer : ℕ → Buffer
  new_buffer n =
      if ltb 0 n
      then record { memory = some (h.fresh n); size = to_int n; index = 0 }
      else no_buffer

  unfoldable pub init : ℕ → Buffer → Result Buffer
  init n b = elim b.memory [
    | some m ↦ throws exception_pointer
    | none ↦
        if ltb 0 n
        then ok (record { memory = some (h.fresh n); size = to_int n; index = 0 })
        else ok b
  ]

-- `*reinterpret_cast<T*>(data + index) = …; index += sizeof(T)`, once the check has passed.
unfoldable pub write_bytes : List ℕ → Buffer → Result Buffer
write_bytes bs b = do
  m ← accessed (store b.index bs b.memory)
  ok (record b { memory = some m; index = b.index + length bs })

unfoldable pub read_bytes : ℕ → Buffer → Result (List ℕ × Buffer)
read_bytes n b = do
  bs ← accessed (load b.index n b.memory)
  ok (bs, record b { index = b.index + n })

module _ (h : Host) where
  unfoldable pub write_long_long : ℕ → Buffer → Result Buffer
  unfolding write_bytes
  write_long_long v b =
      if leb_ℤ (b.index + 8) b.size
      then write_bytes (le_bytes 8 (h.long_long.hton v)) b
      else throws out_of_range

  unfoldable pub write_integer : ℕ → Buffer → Result Buffer
  unfolding write_bytes
  write_integer v b =
      if leb_ℤ (b.index + 4) b.size
      then write_bytes (le_bytes 4 (h.long.hton v)) b
      else throws out_of_range

  unfoldable pub write_short : ℕ → Buffer → Result Buffer
  unfolding write_bytes
  write_short v b =
      if leb_ℤ (b.index + 2) b.size
      then write_bytes (le_bytes 2 (h.short.hton v)) b
      else throws out_of_range

  unfoldable pub read_long_long : Buffer → Result (ℕ × Buffer)
  unfolding read_bytes
  read_long_long b =
      if leb_ℤ (b.index + 8) b.size
      then (do (bs, b') ← read_bytes 8 b; ok (h.long_long.ntoh (le_value bs), b'))
      else throws out_of_range

  unfoldable pub read_integer : Buffer → Result (ℕ × Buffer)
  unfolding read_bytes
  read_integer b =
      if leb_ℤ (b.index + 4) b.size
      then (do (bs, b') ← read_bytes 4 b; ok (h.long.ntoh (le_value bs), b'))
      else throws out_of_range

  unfoldable pub read_short : Buffer → Result (ℕ × Buffer)
  unfolding read_bytes
  read_short b =
      if leb_ℤ (b.index + 2) b.size
      then (do (bs, b') ← read_bytes 2 b; ok (h.short.ntoh (le_value bs), b'))
      else throws out_of_range

unfoldable pub write_byte : ℕ → Buffer → Result Buffer
unfolding write_bytes
write_byte v b = if leb_ℤ (b.index + 1) b.size then write_bytes (v ∷ []) b else throws out_of_range

unfoldable pub read_byte : Buffer → Result (ℕ × Buffer)
unfolding read_bytes
read_byte b =
    if leb_ℤ (b.index + 1) b.size
    then (do (bs, b') ← read_bytes 1 b; ok (le_value bs, b'))
    else throws out_of_range

-- The check of `WriteBuffer` and `ReadBuffer`, in `unsigned`: the sum wraps.
abbrev pub has_room : ℕ → Buffer → Bool
has_room n b = leb ((b.index + n) % 2 ^ 32) (to_unsigned b.size)

-- The loop of `WriteBuffer` at `i`, with the rounds that are left.
unfoldable pub write_loop : ℕ → ℕ → List ℕ → Buffer → Result Buffer
unfolding write_bytes
write_loop zero i source b = ok b
write_loop (suc left) i source b = do
  c ← accessed (load i 1 (some source))
  b' ← write_bytes c b
  write_loop left (i + 1) source b'

unfoldable pub write_buffer : List ℕ → ℕ → Buffer → Result Buffer
unfolding write_loop
write_buffer source n b = if has_room n b then write_loop n 0 source b else throws out_of_range

-- The loop of `ReadBuffer`, which fills `out`, the memory that `o_buffer` points to.
unfoldable pub read_loop : ℕ → ℕ → List ℕ → Buffer → Result (List ℕ × Buffer)
unfolding read_bytes
read_loop zero i out b = ok (out, b)
read_loop (suc left) i out b = do
  (c, b') ← read_bytes 1 b
  out' ← accessed (store i c (some out))
  read_loop left (i + 1) out' b'

unfoldable pub read_buffer : List ℕ → ℕ → Buffer → Result (List ℕ × Buffer)
unfolding read_loop
read_buffer out n b = if has_room n b then read_loop n 0 out b else throws out_of_range

-- `index = 0`.
abbrev pub rewind : Buffer → Buffer
rewind b = record b { index = 0 }

-- The memory that can be written behind a pointer.
abbrev pub behind : Option (List ℕ) → List ℕ
behind none = []
behind (some m) = m
