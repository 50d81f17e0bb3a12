-- ===== src/Buffer/Float.antt =====
-- `WriteFloat` and `ReadFloat` of Packets/Buffer.cpp. A float is its 32 bits.
use game_network.Base.{
  ℕ, zero, suc, ◌+◌, ◌-◌, ◌*◌, ◌/◌, ◌%◌, ◌^◌, ◌<◌, ◌≡◌, refl, sym, ap, ◌∙◌, arith, true, ◌||◌, ◌&&◌,
  List, [], ◌∷◌, ◌++◌, length, length-append, le→leb, if◌then◌else◌, leb, ltb, ◌==◌, Result, ok,
  throws, out_of_range, ◌>>=◌,
}
use game_network.Base.Bytes.{le_bytes, be_bytes, le_value, length-le_bytes}
use game_network.Buffer.{Buffer, has_room, write_bytes, read_bytes, rewind}
use game_network.Buffer.Cursor.{cursor, write_bytes-cursor, read_bytes-cursor, rewind-cursor}

-- WinSock's `htonf`, from a float to the number with its bytes in network order, and `ntohf` back.
pub record FloatOrder : Type 0 where
  pub htonf : ℕ → ℕ
  pub ntohf : ℕ → ℕ
  pub htonf_bytes : (v : ℕ) → v < 2 ^ 32 → le_bytes 4 (htonf v) ≡ be_bytes 4 v
  pub ntohf_bytes : (v : ℕ) → v < 2 ^ 32 → ntohf (le_value (be_bytes 4 v)) ≡ v

-- The position of the highest bit that is 1, searched from `n - 1` down.
unfoldable pub top_bit_of : ℕ → ℕ → ℕ
top_bit_of zero v = 0
top_bit_of (suc n) v = let rest = top_bit_of n v in if leb (2 ^ n) v then n else rest

-- `v / 2 ^ shift`, rounded to the nearest, and halfway to the even one.
abbrev pub rounded : ℕ → ℕ → ℕ
rounded v shift =
    let q = v / 2 ^ shift in
    let r = v % 2 ^ shift in
    if ltb (2 ^ shift) (2 * r) || ((2 * r == 2 ^ shift) && (q % 2 == 1)) then q + 1 else q

-- `static_cast<float>` of an `unsigned int`: the number with that value, of 24 bits that count. A
-- carry out of them goes to the exponent.
unfoldable pub float_of : ℕ → ℕ
unfolding top_bit_of
float_of v =
    let e = top_bit_of 32 v in
    if v == 0
    then 0
    else if leb e 23
    then (126 + e) * 2 ^ 23 + v * 2 ^ (23 - e)
    else (126 + e) * 2 ^ 23 + rounded v (e - 23)

module _ (f : FloatOrder) where
  -- The sum with `sizeof(float)` is unsigned, and so is the test. What is stored is not the number
  -- that `htonf` makes but a float of its value.
  unfoldable pub write_float : ℕ → Buffer → Result Buffer
  unfolding write_bytes float_of
  write_float v b =
      if has_room 4 b
      then write_bytes (le_bytes 4 (float_of (f.htonf v))) b
      else throws out_of_range

  -- One byte is read, and the index goes on by four.
  unfoldable pub read_float : Buffer → Result (ℕ × Buffer)
  unfolding read_bytes
  read_float b =
      if has_room 4 b
      then (do
        (bs, b') ← read_bytes 1 b
        ok (f.ntohf (le_value bs), record b { index = b.index + 4 }))
      else throws out_of_range

module _ (f : FloatOrder) (mid slack : List ℕ) (small : length mid < 2 ^ 31 - 4) where
  room : (bs : List ℕ) → length bs ≡ 4 → has_room 4 (cursor [] (bs ++ mid) slack) ≡ true
  room bs e = le→leb _ _ (omega (arith, length-append bs mid))

  write_float-cursor :
      (v : ℕ) (old : List ℕ)
      → length old ≡ 4
      → write_float f v (cursor [] (old ++ mid) slack)
        ≡ ok (cursor (le_bytes 4 (float_of (f.htonf v))) mid slack)
  unfolding write_float
  write_float-cursor v old e =
      let stored = float_of (f.htonf v) in
      rw (room old e) (
        write_bytes-cursor [] (le_bytes 4 stored) old mid slack
          (e ∙ sym (length-le_bytes 4 stored)))

  read_float-cursor :
      (b : ℕ) (bs : List ℕ)
      → length (b ∷ bs) ≡ 4
      → (r : Buffer) × (read_float f (cursor [] ((b ∷ bs) ++ mid) slack) ≡ ok (f.ntohf b, r))
  unfolding read_float le_value
  read_float-cursor b bs e = (
    record (cursor [] ((b ∷ bs) ++ mid) slack) { index = 4 },
    rw (room (b ∷ bs) e, read_bytes-cursor 1 [] (b ∷ []) (bs ++ mid) slack refl)
        (ap (λ n. ok (f.ntohf n, record (cursor [] ((b ∷ bs) ++ mid) slack) { index = 4 }))
          (omega arith)),
  )

  -- What is written at the front of a buffer with room for it, and read from there, comes back as what
  -- `ntohf` makes of one byte: the last of the number that `float_of` gives for that of `htonf`.
  pub write_float-read_float :
      (v : ℕ) (old : List ℕ)
      → length old ≡ 4
      → (do
        b ← write_float f v (cursor [] (old ++ mid) slack)
        (w, b') ← read_float f (rewind b)
        ok w)
        ≡ ok (f.ntohf (float_of (f.htonf v) % 256))
  unfolding le_bytes
  write_float-read_float v old e =
      let stored = float_of (f.htonf v) in
      let (b, read) = read_float-cursor (stored % 256) (le_bytes 3 (stored / 256)) refl in
      rw (write_float-cursor v old e, rewind-cursor (le_bytes 4 stored) mid slack, read) refl
