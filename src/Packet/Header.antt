-- ===== src/Packet/Header.antt =====
-- The bytes that begin a packet, and the checks of lists and types that the packets share.
use game_network.Base.{
  ℕ, zero, suc, ◌+◌, ◌≤◌, ◌<◌, ◌≡◌, refl, sym, ap, subst, ◌∙◌, arith, true, List, [], ◌∷◌, ◌++◌,
  length, length-append, length-take, length-drop, take, drop, take-append-drop, ok, Result, ◌>>=◌,
  ◌%◌, ◌^◌,
}
use game_network.Base.Bytes.{be_bytes, length-be_bytes}
use game_network.Platform.{Host, Crypto}
use game_network.Buffer.{Buffer, init, no_buffer}
use game_network.Crc.{u32}
use game_network.Buffer.Cursor.{init-cursor, cursor, write_integer-cursor, write_byte-cursor}
use game_network.Packet.{
  PacketType, invalid_packet, connection_request, challenge, challenge_response,
  connection_accepted, connection_data, disconnect, unlisted, type_byte, packet_type, protocol_id,
  protocol_id-lt, same_bytes, write_header,
}

abbrev pub IsListed : PacketType → Type 0
IsListed (unlisted n) = 7 ≤ n
IsListed _ = Unit {0}

-- A type's byte gives the type back.
pub packet_type-type_byte : (t : PacketType) → IsListed t → packet_type (type_byte t) ≡ t
unfolding packet_type type_byte
packet_type-type_byte (unlisted zero) h = absurd (omega arith)
packet_type-type_byte (unlisted (suc zero)) h = absurd (omega arith)
packet_type-type_byte (unlisted (suc (suc zero))) h = absurd (omega arith)
packet_type-type_byte (unlisted (suc (suc (suc zero)))) h = absurd (omega arith)
packet_type-type_byte (unlisted (suc (suc (suc (suc zero))))) h = absurd (omega arith)
packet_type-type_byte (unlisted (suc (suc (suc (suc (suc zero)))))) h = absurd (omega arith)
packet_type-type_byte (unlisted (suc (suc (suc (suc (suc (suc zero))))))) h = absurd (omega arith)
packet_type-type_byte (unlisted (suc (suc (suc (suc (suc (suc (suc n)))))))) h =
    ap unlisted (omega arith)
packet_type-type_byte invalid_packet h = refl
packet_type-type_byte connection_request h = refl
packet_type-type_byte challenge h = refl
packet_type-type_byte challenge_response h = refl
packet_type-type_byte connection_accepted h = refl
packet_type-type_byte connection_data h = refl
packet_type-type_byte disconnect h = refl

pub same_bytes_refl : (n : ℕ) (xs : List ℕ) → length xs ≡ n → same_bytes n xs xs ≡ true
unfolding same_bytes
same_bytes_refl zero xs e = refl
same_bytes_refl (suc n) [] e = absurd (omega arith)
same_bytes_refl (suc n) (x ∷ xs) e = ground (arith, same_bytes_refl n xs)

pub same_bytes-eq :
    (n : ℕ) (xs ys : List ℕ) → length xs ≡ n → length ys ≡ n → same_bytes n xs ys ≡ true → xs ≡ ys
unfolding same_bytes
same_bytes-eq zero [] [] p q h = refl
same_bytes-eq zero (x ∷ xs) ys p q h = absurd (omega arith)
same_bytes-eq zero [] (y ∷ ys) p q h = absurd (omega arith)
same_bytes-eq (suc n) [] ys p q h = absurd (omega arith)
same_bytes-eq (suc n) (x ∷ xs) [] p q h = absurd (omega arith)
same_bytes-eq (suc n) (x ∷ xs) (y ∷ ys) p q h = ground (arith, same_bytes-eq n xs ys)

-- A list in two parts.
pub record Parts (a b : ℕ) (xs : List ℕ) : Type 0 where
  pub front : List ℕ
  pub back : List ℕ
  pub is_both : xs ≡ front ++ back
  pub length_front : length front ≡ a
  pub length_back : length back ≡ b

pub parts : (a b : ℕ) (xs : List ℕ) → length xs ≡ a + b → Parts a b xs
parts a b xs e = record {
  front = take a xs;
  back = drop a xs;
  is_both = sym (take-append-drop a xs);
  length_front = omega (arith, length-take a xs);
  length_back = omega (arith, length-drop a xs);
}

-- The first five bytes of a packet that is not a checksum's.
abbrev pub header : PacketType → List ℕ
header t = be_bytes 4 protocol_id ++ type_byte t ∷ []

pub length-header : (t : PacketType) → length (header t) ≡ 5
length-header t =
    length-append (be_bytes 4 protocol_id) (type_byte t ∷ [])
    ∙ ap (λ n. n + 1) (length-be_bytes 4 protocol_id)

write_header_at :
    (h : Host) (c : Crypto) (t : PacketType) (old : List ℕ) (x : ℕ) (rest : List ℕ)
    → length old ≡ 4
    → write_header h c t (cursor [] (old ++ x ∷ rest) []) ≡ ok (cursor (header t) rest [])
unfolding write_header
write_header_at h c t old x rest e =
    rw (write_integer-cursor h protocol_id [] old (x ∷ rest) [] protocol_id-lt e)
      (write_byte-cursor (type_byte t) x (be_bytes 4 protocol_id) rest [])

uncons :
    (n : ℕ) (xs : List ℕ)
    → length xs ≡ 1 + n
    → (x : ℕ) × (rest : List ℕ) × (xs ≡ x ∷ rest) × (length rest ≡ n)
uncons n [] e = absurd (omega arith)
uncons n (x ∷ rest) e = (x, rest, refl, omega arith)

-- The header goes to the front of a fresh buffer, and leaves the rest of it ahead.
pub write_header-cursor :
    (h : Host) (c : Crypto) (t : PacketType) (n : ℕ) (old : List ℕ)
    → length old ≡ 5 + n
    → (rest : List ℕ) × (length rest ≡ n)
      × (write_header h c t (cursor [] old []) ≡ ok (cursor (header t) rest []))
write_header-cursor h c t n old e =
    let p = parts 4 (1 + n) old (omega arith) in
    let (x, rest, is_cons, length_rest) = uncons n p.back p.length_back in
    (
      rest,
      length_rest,
      subst (λ l. write_header h c t (cursor [] l []) ≡ ok (cursor (header t) rest []))
          (sym (p.is_both ∙ ap (λ l. p.front ++ l) is_cons))
          (write_header_at h c t p.front x rest p.length_front),
    )

-- Every writer makes its buffer and puts the header there.
pub begin_packet {ℓ} :
    {B : Type ℓ} (h : Host) (c : Crypto) (t : PacketType) (n total : ℕ) (next : Buffer → Result B)
    → total ≡ 5 + n
    → total < 2 ^ 31
    → (rest : List ℕ) × (length rest ≡ n)
      × ((do b₁ ← init h (u32 total) no_buffer; b₂ ← write_header h c t b₁; next b₂)
          ≡ next (cursor (header t) rest []))
begin_packet h c t n total next e small =
    let fits : total % 2 ^ 32 ≡ total = omega arith in
    let (rest, length_rest, written) =
      write_header-cursor h c t n (h.fresh total) (h.length_fresh total ∙ e) in
    (rest, length_rest, rw (fits, init-cursor h total (omega arith) small, written))

-- A write of `a` bytes into a rest of `a + n` leaves a rest of `n`.
pub filled :
    (a n : ℕ) (pre out rest : List ℕ) (write : Buffer → Result Buffer)
    → length rest ≡ a + n
    → ((old mid : List ℕ)
        → length old ≡ a
        → length mid ≡ n
        → write (cursor pre (old ++ mid) []) ≡ ok (cursor (pre ++ out) mid []))
    → (left : List ℕ) × (length left ≡ n)
      × (write (cursor pre rest []) ≡ ok (cursor (pre ++ out) left []))
filled a n pre out rest write e fills =
    let p = parts a n rest e in
    (
      p.back,
      p.length_back,
      subst (λ l. write (cursor pre l []) ≡ ok (cursor (pre ++ out) p.back [])) (sym p.is_both)
          (fills p.front p.back p.length_front p.length_back),
    )
