-- ===== src/Buffer/Contract.antt =====
-- Every operation of the buffer, as one type of requests.
use game_network.Base.{
  ℕ, ◌+◌, ◌^◌, ◌≤◌, ◌<◌, ◌≡◌, refl, inl, inr, arith, List, [], ◌∷◌, length, leb, leb→le, Bool-cases,
  Result,
}
use game_network.Base.Bytes.{le_value, length-le_bytes}
use game_network.Platform.{Host}
use game_network.Buffer.{
  Buffer, write_integer, write_short, write_byte, read_integer, read_short, read_byte,
  write_long_long, read_long_long, write_buffer, read_buffer, has_room,
}
use game_network.Buffer.Float.{FloatOrder, write_float, read_float}
use game_network.Buffer.Safety.{
  IsValid, valid, buffer_at, Outcome, refused, moved, after, fixed_write, fixed_read, write_loop_at,
  read_loop_at,
}

pub data Request : Type 0 where
  put_long_long put_integer put_short put_byte : ℕ → Request
  get_long_long get_integer get_short get_byte : Request
  put_block get_block : List ℕ → ℕ → Request

-- The bytes that a request moves.
abbrev pub width : Request → ℕ
width (put_long_long v) = 8
width (put_integer v) = 4
width (put_short v) = 2
width (put_byte v) = 1
width get_long_long = 8
width get_integer = 4
width get_short = 2
width get_byte = 1
width (put_block source n) = n
width (get_block out n) = n

-- A block has the bytes that are asked for, and fewer than 2 ^ 31.
abbrev pub IsSound : Request → Type 0
IsSound (put_block source n) = (n ≤ length source) × (n < 2 ^ 31)
IsSound (get_block out n) = (n ≤ length out) × (n < 2 ^ 31)
IsSound _ = Unit {0}

module _ (h : Host) where
  unfoldable pub serve : Request → Buffer → Result Buffer
  serve (put_long_long v) b = write_long_long h v b
  serve (put_integer v) b = write_integer h v b
  serve (put_short v) b = write_short h v b
  serve (put_byte v) b = write_byte v b
  serve get_long_long b = after (read_long_long h b)
  serve get_integer b = after (read_integer h b)
  serve get_short b = after (read_short h b)
  serve get_byte b = after (read_byte b)
  serve (put_block source n) b = write_buffer source n b
  serve (get_block out n) b = after (read_buffer out n b)

-- Below 2 ^ 31 the unsigned check is the check of the bytes that are left.
has_room-eq :
    (n : ℕ) (m : List ℕ) (s i : ℕ)
    → i ≤ s
    → s < 2 ^ 31
    → n < 2 ^ 31
    → has_room n (buffer_at m s i) ≡ leb (i + n) s
has_room-eq n m s i p q r = ground arith

write_buffer-Outcome :
    (source : List ℕ) (n : ℕ) {b : Buffer}
    → n ≤ length source
    → n < 2 ^ 31
    → IsValid b
    → Outcome n b (write_buffer source n b)
unfolding write_buffer
write_buffer-Outcome source n long small (valid m s i p q r) =
    rw (has_room-eq n m s i q r small) (elim (Bool-cases (leb (i + n) s)) [
      | inl fits ↦
          let below : i + n ≤ s = leb→le _ _ fits in
          let (m', same, e) =
            write_loop_at n 0 source m s i (i + n) refl (omega arith) (omega arith) in
          rw (fits, e) (moved fits (valid m' s (i + n) (rw same p) below r) refl refl)
      | inr over ↦ rw over (refused over)
    ])

read_buffer-Outcome :
    (out : List ℕ) (n : ℕ) {b : Buffer}
    → n ≤ length out
    → n < 2 ^ 31
    → IsValid b
    → Outcome n b (after (read_buffer out n b))
unfolding read_buffer
read_buffer-Outcome out n long small (valid m s i p q r) =
    rw (has_room-eq n m s i q r small) (elim (Bool-cases (leb (i + n) s)) [
      | inl fits ↦
          let below : i + n ≤ s = leb→le _ _ fits in
          let (out', e) = read_loop_at n 0 out m s i (i + n) refl (omega arith) (omega arith) in
          rw (fits, e) (moved fits (valid m s (i + n) p below r) refl refl)
      | inr over ↦ rw over (refused over)
    ])

-- At a valid buffer each read and write, of a number or of a block with the bytes that are asked for and fewer
-- than 2 ^ 31, throws `out_of_range` exactly when fewer bytes are left than it moves. Otherwise it
-- moves the index by just those, keeps the size and leaves a valid buffer. It never leaves the
-- memory.
pub serve-Outcome :
    (h : Host) (q : Request) {b : Buffer}
    → IsSound q
    → IsValid b
    → Outcome (width q) b (serve h q b)
unfolding serve write_long_long write_integer write_short write_byte read_long_long read_integer
    read_short read_byte
serve-Outcome h (put_long_long v) s (valid m n i p q r) =
    fixed_write m n i p q r 8 _ (length-le_bytes 8 _)
serve-Outcome h (put_integer v) s (valid m n i p q r) =
    fixed_write m n i p q r 4 _ (length-le_bytes 4 _)
serve-Outcome h (put_short v) s (valid m n i p q r) =
    fixed_write m n i p q r 2 _ (length-le_bytes 2 _)
serve-Outcome h (put_byte v) s (valid m n i p q r) = fixed_write m n i p q r 1 (v ∷ []) refl
serve-Outcome h get_long_long s (valid m n i p q r) = fixed_read m n i p q r 8 _
serve-Outcome h get_integer s (valid m n i p q r) = fixed_read m n i p q r 4 _
serve-Outcome h get_short s (valid m n i p q r) = fixed_read m n i p q r 2 _
serve-Outcome h get_byte s (valid m n i p q r) = fixed_read m n i p q r 1 le_value
serve-Outcome h (put_block source n) s v = write_buffer-Outcome source n s.0 s.1 v
serve-Outcome h (get_block out n) s v = read_buffer-Outcome out n s.0 s.1 v

-- The requests, and those of floats.
pub data Access : Type 0 where
  plain : Request → Access
  put_float : ℕ → Access
  get_float : Access

abbrev pub access_width : Access → ℕ
access_width (plain q) = width q
access_width (put_float v) = 4
access_width get_float = 4

abbrev pub IsSoundAccess : Access → Type 0
IsSoundAccess (plain q) = IsSound q
IsSoundAccess _ = Unit {0}

unfoldable pub serve_any : Host → FloatOrder → Access → Buffer → Result Buffer
unfolding serve
serve_any h f (plain q) b = serve h q b
serve_any h f (put_float v) b = write_float f v b
serve_any h f get_float b = after (read_float f b)
