-- ===== src/Buffer/Cursor.antt =====
-- A buffer in the form in which its operations are equations: the bytes passed, the bytes ahead
-- and the memory behind `size`.
use game_network.Base.{
  ℕ, ◌+◌, ◌^◌, ◌<◌, ◌≡◌, refl, ap, sym, ◌∙◌, arith, true, List, [], ◌∷◌, ◌++◌, some, append_assoc,
  append-nil, length, length-append, take-length, drop-length, drop-append, drop-add, pass,
  length-snoc, leb, le→leb, lt→ltb, ok,
}
use game_network.Base.Int.{pos}
use game_network.Base.Bytes.{be_bytes, le_value, length-be_bytes}
use game_network.Platform.{Host}
use game_network.Buffer.{
  rewind, init, no_buffer, new_buffer, behind, Buffer, load, store, write_bytes, read_bytes,
  write_integer, write_short, write_byte, read_integer, read_short, read_byte, write_long_long,
  read_long_long, write_loop, write_buffer, read_loop, read_buffer, has_room,
}

abbrev pub cursor : List ℕ → List ℕ → List ℕ → Buffer
cursor pre mid slack = record {
  memory = some (pre ++ (mid ++ slack));
  size = pos (length pre + length mid);
  index = length pre;
}

load_at :
    (pre bs post : List ℕ) → load (length pre) (length bs) (some (pre ++ (bs ++ post))) ≡ some bs
load_at pre bs post =
    rw
      (
        length-append pre (bs ++ post),
        length-append bs post,
        le→leb (length pre + length bs) (length pre + (length bs + length post)) (omega arith),
        drop-length pre (bs ++ post),
      )
      (ap some (take-length bs post))

store_at :
    (pre bs old post : List ℕ)
    → length old ≡ length bs
    → store (length pre) bs (some (pre ++ (old ++ post))) ≡ some (pre ++ (bs ++ post))
store_at pre bs old post e =
    rw
      (
        length-append pre (old ++ post),
        length-append old post,
        le→leb (length pre + length bs) (length pre + (length old + length post)) (omega arith),
        take-length pre (old ++ post),
        drop-add pre (old ++ post) (length bs),
        drop-append (length bs) old post e,
      )
      refl

-- What is left of `cursor pre (old ++ mid) slack` after `bs` at the place of `old`.
moved :
    (pre bs old mid slack : List ℕ)
    → length old ≡ length bs
    → ◌≡◌ {A = Buffer}
        (record {
          memory = some (pre ++ (bs ++ (mid ++ slack)));
          size = pos (length pre + length (old ++ mid));
          index = length pre + length bs;
        })
        (cursor (pre ++ bs) mid slack)
moved pre bs old mid slack e = λ i. record {
  memory = some (sym (append_assoc pre bs (mid ++ slack)) i);
  size = pos (sizes i);
  index = sym (length-append pre bs) i;
}
  where
    sizes : length pre + length (old ++ mid) ≡ length (pre ++ bs) + length mid
    sizes = omega (arith, length-append pre bs, length-append old mid)

pub write_bytes-cursor :
    (pre bs old mid slack : List ℕ)
    → length old ≡ length bs
    → write_bytes bs (cursor pre (old ++ mid) slack) ≡ ok (cursor (pre ++ bs) mid slack)
unfolding write_bytes
write_bytes-cursor pre bs old mid slack e =
    rw (append_assoc old mid slack, store_at pre bs old (mid ++ slack) e)
      (ap ok (moved pre bs old mid slack e))

pub read_bytes-cursor :
    (n : ℕ) (pre bs mid slack : List ℕ)
    → length bs ≡ n
    → read_bytes n (cursor pre (bs ++ mid) slack) ≡ ok (bs, cursor (pre ++ bs) mid slack)
unfolding read_bytes
read_bytes-cursor n pre bs mid slack e =
    rw (← e, append_assoc bs mid slack, load_at pre bs (mid ++ slack))
      (ap (λ b. ok (bs, b)) (moved pre bs bs mid slack refl))

-- The check of an access of fixed width passes.
fits :
    (n : ℕ) (pre bs mid : List ℕ)
    → length bs ≡ n
    → leb (length pre + n) (length pre + length (bs ++ mid)) ≡ true
fits n pre bs mid e = le→leb _ _ (omega (arith, length-append bs mid))

module _ (h : Host) where
  pub write_long_long-cursor :
      (v : ℕ) (pre old mid slack : List ℕ)
      → v < 256 ^ 8
      → length old ≡ 8
      → write_long_long h v (cursor pre (old ++ mid) slack)
        ≡ ok (cursor (pre ++ be_bytes 8 v) mid slack)
  unfolding write_long_long
  write_long_long-cursor v pre old mid slack lt e =
      rw (fits 8 pre old mid e, h.long_long.hton_bytes v lt)
        (write_bytes-cursor pre (be_bytes 8 v) old mid slack (e ∙ sym (length-be_bytes 8 v)))

  pub read_long_long-cursor :
      (v : ℕ) (pre mid slack : List ℕ)
      → v < 256 ^ 8
      → read_long_long h (cursor pre (be_bytes 8 v ++ mid) slack)
        ≡ ok (v, cursor (pre ++ be_bytes 8 v) mid slack)
  unfolding read_long_long
  read_long_long-cursor v pre mid slack lt =
      rw
        (
          fits 8 pre (be_bytes 8 v) mid (length-be_bytes 8 v),
          read_bytes-cursor 8 pre (be_bytes 8 v) mid slack (length-be_bytes 8 v),
        )
        (ap (λ x. ok (x, cursor (pre ++ be_bytes 8 v) mid slack)) (h.long_long.ntoh_bytes v lt))

  pub write_integer-cursor :
      (v : ℕ) (pre old mid slack : List ℕ)
      → v < 256 ^ 4
      → length old ≡ 4
      → write_integer h v (cursor pre (old ++ mid) slack)
        ≡ ok (cursor (pre ++ be_bytes 4 v) mid slack)
  unfolding write_integer
  write_integer-cursor v pre old mid slack lt e =
      rw (fits 4 pre old mid e, h.long.hton_bytes v lt)
        (write_bytes-cursor pre (be_bytes 4 v) old mid slack (e ∙ sym (length-be_bytes 4 v)))

  pub read_integer-cursor :
      (v : ℕ) (pre mid slack : List ℕ)
      → v < 256 ^ 4
      → read_integer h (cursor pre (be_bytes 4 v ++ mid) slack)
        ≡ ok (v, cursor (pre ++ be_bytes 4 v) mid slack)
  unfolding read_integer
  read_integer-cursor v pre mid slack lt =
      rw
        (
          fits 4 pre (be_bytes 4 v) mid (length-be_bytes 4 v),
          read_bytes-cursor 4 pre (be_bytes 4 v) mid slack (length-be_bytes 4 v),
        )
        (ap (λ x. ok (x, cursor (pre ++ be_bytes 4 v) mid slack)) (h.long.ntoh_bytes v lt))

  pub write_short-cursor :
      (v : ℕ) (pre old mid slack : List ℕ)
      → v < 256 ^ 2
      → length old ≡ 2
      → write_short h v (cursor pre (old ++ mid) slack)
        ≡ ok (cursor (pre ++ be_bytes 2 v) mid slack)
  unfolding write_short
  write_short-cursor v pre old mid slack lt e =
      rw (fits 2 pre old mid e, h.short.hton_bytes v lt)
        (write_bytes-cursor pre (be_bytes 2 v) old mid slack (e ∙ sym (length-be_bytes 2 v)))

  pub read_short-cursor :
      (v : ℕ) (pre mid slack : List ℕ)
      → v < 256 ^ 2
      → read_short h (cursor pre (be_bytes 2 v ++ mid) slack)
        ≡ ok (v, cursor (pre ++ be_bytes 2 v) mid slack)
  unfolding read_short
  read_short-cursor v pre mid slack lt =
      rw
        (
          fits 2 pre (be_bytes 2 v) mid (length-be_bytes 2 v),
          read_bytes-cursor 2 pre (be_bytes 2 v) mid slack (length-be_bytes 2 v),
        )
        (ap (λ x. ok (x, cursor (pre ++ be_bytes 2 v) mid slack)) (h.short.ntoh_bytes v lt))

pub write_byte-cursor :
    (v x : ℕ) (pre mid slack : List ℕ)
    → write_byte v (cursor pre (x ∷ mid) slack) ≡ ok (cursor (pre ++ v ∷ []) mid slack)
unfolding write_byte
write_byte-cursor v x pre mid slack =
    rw (fits 1 pre (x ∷ []) mid refl) (write_bytes-cursor pre (v ∷ []) (x ∷ []) mid slack refl)

pub read_byte-cursor :
    (v : ℕ) (pre mid slack : List ℕ)
    → read_byte (cursor pre (v ∷ mid) slack) ≡ ok (v, cursor (pre ++ v ∷ []) mid slack)
unfolding read_byte le_value
read_byte-cursor v pre mid slack =
    rw (fits 1 pre (v ∷ []) mid refl, read_bytes-cursor 1 pre (v ∷ []) mid slack refl)
      (ap (λ x. ok (x, cursor (pre ++ v ∷ []) mid slack)) (omega arith))

write_loop-cursor :
    (i : ℕ) (passed bs rest pre old mid slack : List ℕ)
    → length passed ≡ i
    → length old ≡ length bs
    → write_loop (length bs) i (passed ++ (bs ++ rest)) (cursor pre (old ++ mid) slack)
      ≡ ok (cursor (pre ++ bs) mid slack)
unfolding write_loop
write_loop-cursor i passed [] rest pre [] mid slack p e = rw append-nil
write_loop-cursor i passed [] rest pre (x ∷ old) mid slack p e = absurd (omega arith)
write_loop-cursor i passed (b ∷ bs) rest pre [] mid slack p e = absurd (omega arith)
write_loop-cursor i passed (b ∷ bs) rest pre (x ∷ old) mid slack p e =
    rw
      (
        ← p,
        load_at passed (b ∷ []) (bs ++ rest),
        write_bytes-cursor pre (b ∷ []) (x ∷ []) (old ++ mid) slack refl,
        pass passed b (bs ++ rest),
        pass pre b bs,
        ← length-snoc passed b,
      )
      (write_loop-cursor (length (passed ++ b ∷ [])) (passed ++ b ∷ []) bs rest (pre ++ b ∷ []) old
        mid slack refl (omega arith))

-- The check of `WriteBuffer` and `ReadBuffer` passes, where the end of the bytes does not wrap.
has_room-cursor :
    (pre bs mid slack : List ℕ)
    → length pre + length (bs ++ mid) < 2 ^ 32
    → has_room (length bs) (cursor pre (bs ++ mid) slack) ≡ true
has_room-cursor pre bs mid slack h = ground (arith, length-append bs mid)

pub write_buffer-cursor :
    (n : ℕ) (bs rest pre old mid slack : List ℕ)
    → length bs ≡ n
    → length old ≡ n
    → length pre + length (old ++ mid) < 2 ^ 32
    → write_buffer (bs ++ rest) n (cursor pre (old ++ mid) slack)
      ≡ ok (cursor (pre ++ bs) mid slack)
unfolding write_buffer
write_buffer-cursor n bs rest pre old mid slack p q h =
    rw (← q, has_room-cursor pre old mid slack h, q, ← p)
      (write_loop-cursor 0 [] bs rest pre old mid slack refl (q ∙ sym p))

read_loop-cursor :
    (i : ℕ) (passed bs old rest pre mid slack : List ℕ)
    → length passed ≡ i
    → length old ≡ length bs
    → read_loop (length bs) i (passed ++ (old ++ rest)) (cursor pre (bs ++ mid) slack)
      ≡ ok (passed ++ (bs ++ rest), cursor (pre ++ bs) mid slack)
unfolding read_loop
read_loop-cursor i passed [] [] rest pre mid slack p e = rw append-nil
read_loop-cursor i passed [] (x ∷ old) rest pre mid slack p e = absurd (omega arith)
read_loop-cursor i passed (b ∷ bs) [] rest pre mid slack p e = absurd (omega arith)
read_loop-cursor i passed (b ∷ bs) (x ∷ old) rest pre mid slack p e =
    rw
      (
        ← p,
        read_bytes-cursor 1 pre (b ∷ []) (bs ++ mid) slack refl,
        store_at passed (b ∷ []) (x ∷ []) (old ++ rest) refl,
        pass passed b (old ++ rest),
        pass passed b (bs ++ rest),
        pass pre b bs,
        ← length-snoc passed b,
      )
      (read_loop-cursor (length (passed ++ b ∷ [])) (passed ++ b ∷ []) bs old rest (pre ++ b ∷ [])
        mid slack refl (omega arith))

pub read_buffer-cursor :
    (n : ℕ) (old rest bs pre mid slack : List ℕ)
    → length old ≡ n
    → length bs ≡ n
    → length pre + length (bs ++ mid) < 2 ^ 32
    → read_buffer (old ++ rest) n (cursor pre (bs ++ mid) slack)
      ≡ ok (bs ++ rest, cursor (pre ++ bs) mid slack)
unfolding read_buffer
read_buffer-cursor n old rest bs pre mid slack p q h =
    rw (← q, has_room-cursor pre bs mid slack h)
      (read_loop-cursor 0 [] bs old rest pre mid slack refl (p ∙ sym q))

-- `index = 0` goes back to the first byte.
pub rewind-cursor :
    (pre mid slack : List ℕ) → rewind (cursor pre mid slack) ≡ cursor [] (pre ++ mid) slack
rewind-cursor pre mid slack = λ i. record {
  memory = some (sym (append_assoc pre mid slack) i);
  size = pos (sizes i);
  index = 0;
}
  where
    sizes : length pre + length mid ≡ 0 + length (pre ++ mid)
    sizes = omega (arith, length-append pre mid)

module _ (h : Host) where
  -- A fresh buffer has all its bytes ahead.
  pub init-cursor :
      (n : ℕ) → 0 < n → n < 2 ^ 31 → init h n no_buffer ≡ ok (cursor [] (h.fresh n) [])
  unfolding init
  init-cursor n p q =
      rw (lt→ltb 0 n p, lt→ltb n (2 ^ 31) q)
        (ap ok (λ i. record {
          memory = some (sym (append-nil (h.fresh n)) i);
          size = pos (sizes i);
          index = 0;
        }))
    where
      sizes : n ≡ 0 + length (h.fresh n)
      sizes = omega (arith, h.length_fresh n)

  pub length-new_buffer : (n : ℕ) → length (behind (new_buffer h n).memory) ≡ n
  unfolding new_buffer
  length-new_buffer n = ground (arith, h.length_fresh n)

-- The whole target is filled.
pub read_buffer_all :
    (n : ℕ) (out bs pre mid slack : List ℕ)
    → length out ≡ n
    → length bs ≡ n
    → length pre + length (bs ++ mid) < 2 ^ 32
    → read_buffer out n (cursor pre (bs ++ mid) slack) ≡ ok (bs, cursor (pre ++ bs) mid slack)
read_buffer_all n out bs pre mid slack p q h =
    ap (λ o. read_buffer o n (cursor pre (bs ++ mid) slack)) (sym (append-nil out))
    ∙ read_buffer-cursor n out [] bs pre mid slack p q h
    ∙ ap (λ o. ok (o, cursor (pre ++ bs) mid slack)) (append-nil bs)

pub write_buffer_all :
    (n : ℕ) (bs pre old mid slack : List ℕ)
    → length bs ≡ n
    → length old ≡ n
    → length pre + length (old ++ mid) < 2 ^ 32
    → write_buffer bs n (cursor pre (old ++ mid) slack) ≡ ok (cursor (pre ++ bs) mid slack)
write_buffer_all n bs pre old mid slack p q h =
    ap (λ s. write_buffer s n (cursor pre (old ++ mid) slack)) (sym (append-nil bs))
    ∙ write_buffer-cursor n bs [] pre old mid slack p q h

-- The bytes from the start to the end of a part.
pub load_front : (n : ℕ) (bs post : List ℕ) → length bs ≡ n → load 0 n (some (bs ++ post)) ≡ some bs
load_front n bs post e = rw (← e) (load_at [] bs post)

-- The last bytes of a buffer.
pub read_buffer_last :
    (n : ℕ) (out bs pre slack : List ℕ)
    → length out ≡ n
    → length bs ≡ n
    → length pre + length bs < 2 ^ 32
    → read_buffer out n (cursor pre bs slack) ≡ ok (bs, cursor (pre ++ bs) [] slack)
read_buffer_last n out bs pre slack p q h =
    ap (λ b. read_buffer out n (cursor pre b slack)) (sym (append-nil bs))
    ∙ read_buffer_all n out bs pre [] slack p q (omega (arith, ap length (append-nil bs)))

pub write_buffer_last :
    (n : ℕ) (bs pre old slack : List ℕ)
    → length bs ≡ n
    → length old ≡ n
    → length pre + length old < 2 ^ 32
    → write_buffer bs n (cursor pre old slack) ≡ ok (cursor (pre ++ bs) [] slack)
write_buffer_last n bs pre old slack p q h =
    ap (λ o. write_buffer bs n (cursor pre o slack)) (sym (append-nil old))
    ∙ write_buffer_all n bs pre old [] slack p q (omega (arith, ap length (append-nil old)))

pub rewind_end : (pre slack : List ℕ) → rewind (cursor pre [] slack) ≡ cursor [] pre slack
rewind_end pre slack = rewind-cursor pre [] slack ∙ ap (λ l. cursor [] l slack) (append-nil pre)
