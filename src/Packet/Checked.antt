-- ===== src/Packet/Checked.antt =====
-- The packets of the key exchange, which carry a checksum.
use game_network.Base.{
  ℕ, zero, suc, ◌+◌, ◌-◌, ◌*◌, ◌/◌, ◌%◌, ◌^◌, ◌≤◌, ◌<◌, ◌≡◌, refl, sym, ap, ap₂, ◌∙◌, arith, false,
  List, [], ◌∷◌, ◌++◌, append_assoc, append-nil, length, length-append, length-take,
  length-replicate, take, drop, replicate, get_elem?, get_elem?-append, get_elem?-left,
  replicate-add, Option-cases, pass, length-snoc, take-append-drop, Result, ok, ◌>>=◌, gt→leb,
  ==_iff, bit_xor, ◌==◌, if◌then◌else◌, inl, inr,
}
use game_network.Base.Int.{pos, ℤ_leb}
use game_network.Base.Bytes.{
  be_bytes, length-be_bytes, be_bytes-AreBytes, AreBytes, AreBytes-append,
}
use game_network.Base.Bits.{bit_xor-lt}
use game_network.Platform.{Host, Crypto}
use game_network.Buffer.{
  Buffer, no_buffer, init, write_integer, write_buffer, read_buffer, rewind, behind,
}
use game_network.Buffer.Cursor.{
  cursor, write_integer-cursor, read_integer-cursor, read_byte-cursor, write_buffer-cursor,
  read_buffer-cursor, rewind_end, rewind-cursor,
}
use game_network.Crc.{
  Statics, init_table, get_crc_table_based, table_based_loop, get_crc, crc_loop, all_ones,
  reverse_bits, bit_loop, u32,
}
use game_network.Crc.Table.{get_crc_table_based-eq-get_crc}
use game_network.Crc.Table
use game_network.Packet.{
  PacketType, invalid_packet, type_byte, packet_type, protocol_id, protocol_id-lt,
  rounded_public_key_size, verify_packet_crc, write_key_packet, write_header, read_public_key,
}
use game_network.Packet.Header.{header, length-header, begin_packet}

reverse_bits-lt : (p n : ℕ) → reverse_bits p n < 2 ^ 32
unfolding reverse_bits
reverse_bits-lt p n = omega arith

AreBytes-take : (n : ℕ) (bs : List ℕ) → AreBytes bs → AreBytes (take n bs)
AreBytes-take zero bs h = tt
AreBytes-take (suc n) [] h = tt
AreBytes-take (suc n) (b ∷ bs) h = (h.0, AreBytes-take n bs h.1)

-- The loop reads only what it is told to.
table_based_loop-append :
    (table : List ℕ) (left i r : ℕ) (bs post : List ℕ)
    → i + left ≤ length bs
    → table_based_loop table left i (bs ++ post) r ≡ table_based_loop table left i bs r
unfolding table_based_loop
table_based_loop-append table zero i r bs post h = refl
table_based_loop-append table (suc left) i r bs post h =
    rw (get_elem?-left i bs post (omega arith)) (elim (Option-cases (get_elem? bs i)) [
      | inl missing ↦ rw missing
      | inr (b, e) ↦
          let entry = get_elem? table (bit_xor (reverse_bits b 8) (r / 2 ^ 24) % 2 ^ 8) in
          rw e (elim (Option-cases entry) [
            | inl none_there ↦ rw none_there
            | inr (t, f) ↦ rw f (
                table_based_loop-append table left (i + 1) (bit_xor t (u32 (r * 2 ^ 8))) bs post
                  (omega arith))
          ])
    ])

-- The loop over bytes that are there returns.
crc_loop-returns :
    (passed bs : List ℕ) (i r : ℕ)
    → length passed ≡ i
    → (v : ℕ) × (crc_loop (length bs) i (passed ++ bs) r ≡ ok v)
unfolding crc_loop
crc_loop-returns passed [] i r e = (r, refl)
crc_loop-returns passed (b ∷ bs) i r e =
    let ih =
      crc_loop-returns (passed ++ b ∷ []) bs (i + 1)
        (bit_loop 8 (bit_xor r (u32 (reverse_bits b 8 * 2 ^ 24))))
        (omega (arith, length-snoc passed b)) in
    (ih.0, rw (get_elem?-append i passed b bs e, pass passed b bs) ih.1)

-- The checksum of bytes exists, and is a word.
get_crc-returns : (bs : List ℕ) → (v : ℕ) × (get_crc bs (length bs) ≡ ok v) × (v < 2 ^ 32)
unfolding get_crc
get_crc-returns bs =
    let r = crc_loop-returns [] bs 0 all_ones refl in
    (
      bit_xor (reverse_bits r.0 32) all_ones,
      rw r.1,
      bit_xor-lt 32 (reverse_bits r.0 32) all_ones (reverse_bits-lt r.0 32) (omega arith),
    )

-- What a packet's checksum is taken over: the protocol's number, and what follows the checksum.
abbrev pub unchecked : List ℕ → List ℕ
unchecked body = be_bytes 4 protocol_id ++ body

unchecked-AreBytes : (body : List ℕ) → AreBytes body → AreBytes (unchecked body)
unchecked-AreBytes body h =
    AreBytes-append (be_bytes 4 protocol_id) body (be_bytes-AreBytes 4 protocol_id) h

length-unchecked : (body : List ℕ) → length (unchecked body) ≡ 4 + length body
length-unchecked body =
    omega (arith, length-append (be_bytes 4 protocol_id) body, length-be_bytes 4 protocol_id)

-- The checksum of a body, by the routine that divides bit by bit.
pub record Checksum (body : List ℕ) : Type 0 where
  pub value : ℕ
  pub is_crc : get_crc (unchecked body) (length (unchecked body)) ≡ ok value
  pub is_word : value < 2 ^ 32

pub checksum : (body : List ℕ) → Checksum body
checksum body =
    let r = get_crc-returns (unchecked body) in record { value = r.0; is_crc = r.1; is_word = r.2 }

-- It is what the table gives, also where more memory is behind.
table_checksum :
    (s : Statics) (n : ℕ) (body slack : List ℕ)
    → Table.IsValid s
    → AreBytes body
    → n ≡ 4 + length body
    → get_crc_table_based (init_table s) (be_bytes 4 protocol_id ++ (body ++ slack)) n
      ≡ ok (checksum body).value
table_checksum s n body slack v h e =
    let n' : n ≡ length (unchecked body) = omega (arith, length-unchecked body) in
    ap₂ (get_crc_table_based (init_table s))
      (sym (append_assoc (be_bytes 4 protocol_id) body slack)) n'
    ∙ cut
    ∙ get_crc_table_based-eq-get_crc s (unchecked body) (length (unchecked body)) v
        (unchecked-AreBytes body h)
    ∙ (checksum body).is_crc
  where
    cut :
        get_crc_table_based (init_table s) (unchecked body ++ slack) (length (unchecked body))
        ≡ get_crc_table_based (init_table s) (unchecked body) (length (unchecked body))
    cut =
        unfold get_crc_table_based in
        rw (
          table_based_loop-append (init_table s).table (length (unchecked body)) 0 all_ones
            (unchecked body) slack (omega arith))

module _ (h : Host) (c : Crypto) where
  -- Up to its last test, the check of a packet with the checksum `crc`.
  pub verify_packet_crc-eq :
      (s : Statics) (crc byte : ℕ) (rest slack : List ℕ)
      → Table.IsValid s
      → crc < 2 ^ 32
      → AreBytes (byte ∷ rest)
      → length rest < 2 ^ 31 - 5
      → verify_packet_crc h c s (cursor [] (be_bytes 4 crc ++ byte ∷ rest) slack) ≡ (
          if crc == (checksum (byte ∷ rest)).value
          then ok (
            packet_type byte,
            cursor (be_bytes 4 protocol_id ++ byte ∷ []) rest slack,
            init_table s,
          )
          else ok
              (invalid_packet, cursor (be_bytes 4 protocol_id) (byte ∷ rest) slack, init_table s))
  unfolding verify_packet_crc
  verify_packet_crc-eq s crc byte rest slack v lt bytes small =
      let body = byte ∷ rest in
      let some_bytes : ℤ_leb (pos (0 + length (be_bytes 4 crc ++ body))) 0 ≡ false =
        gt→leb _ _ (omega (arith, length-append (be_bytes 4 crc) body, length-be_bytes 4 crc)) in
      let size : (length (be_bytes 4 protocol_id) + suc (length rest)) % 2 ^ 32
          ≡ 4 + suc (length rest) =
        omega (arith, length-be_bytes 4 protocol_id) in
      rw
        (
          some_bytes,
          read_integer-cursor h crc [] body slack lt,
          rewind-cursor (be_bytes 4 crc) body slack,
          write_integer-cursor h protocol_id [] (be_bytes 4 crc) body slack protocol_id-lt
              (length-be_bytes 4 crc),
          table_checksum s _ body slack v bytes size,
          read_byte-cursor byte (be_bytes 4 protocol_id) rest slack,
        )
        refl

  -- What stands behind the checksum of a key's packet.
  abbrev pub key_body : PacketType → List ℕ → List ℕ
  key_body t key = type_byte t ∷ take (rounded_public_key_size h c) key

  module _ (s : Statics) (v : Table.IsValid s) (t : PacketType) (t_byte : type_byte t < 256)
      (key : List ℕ) (bytes : AreBytes key) (long : rounded_public_key_size h c ≤ length key)
      (small : rounded_public_key_size h c < 2 ^ 31 - 5) where
    abbrev pub rounded : ℕ
    rounded = rounded_public_key_size h c

    abbrev pub front : List ℕ
    front = take rounded key

    length-front : length front ≡ rounded
    length-front = omega (arith, length-take rounded key)

    abbrev pub crc : ℕ
    crc = (checksum (key_body t key)).value

    body-AreBytes : AreBytes (key_body t key)
    body-AreBytes = (t_byte, AreBytes-take rounded key bytes)

    rest_of_write : Buffer → Result (Buffer × Statics)
    rest_of_write b₂ = do
      b₃ ← write_buffer key rounded b₂
      sum ← get_crc_table_based (init_table s) (behind b₃.memory) (5 + rounded)
      b₄ ← write_integer h sum (rewind b₃)
      ok (b₄, init_table s)

    put_key :
        (rest : List ℕ)
        → length rest ≡ rounded
        → write_buffer key rounded (cursor (header t) rest [])
          ≡ ok (cursor (header t ++ front) [] [])
    put_key rest e =
        ap₂ (λ source ahead. write_buffer source rounded (cursor (header t) ahead []))
          (sym (take-append-drop rounded key)) (sym (append-nil rest))
        ∙ write_buffer-cursor rounded front (drop rounded key) (header t) rest [] [] length-front e
            (omega (arith, ap length (append-nil rest), length-header t))

    put_checksum :
        get_crc_table_based (init_table s) ((header t ++ front) ++ []) (5 + rounded) ≡ ok crc
    put_checksum =
        ap (λ l. get_crc_table_based (init_table s) l (5 + rounded))
          (ap (λ l. l ++ []) (append_assoc (be_bytes 4 protocol_id) (type_byte t ∷ []) front)
            ∙ append_assoc (be_bytes 4 protocol_id) (key_body t key) [])
        ∙ table_checksum s (5 + rounded) (key_body t key) [] v body-AreBytes
            (omega (arith, length-front))

    finish :
        (rest : List ℕ)
        → length rest ≡ rounded
        → rest_of_write (cursor (header t) rest [])
          ≡ ok (cursor (be_bytes 4 crc) (key_body t key) [], init_table s)
    unfolding rest_of_write
    finish rest e =
        rw
          (
            put_key rest e,
            put_checksum,
            rewind_end (header t ++ front) [],
            append_assoc (be_bytes 4 protocol_id) (type_byte t ∷ []) front,
            write_integer-cursor h crc [] (be_bytes 4 protocol_id) (key_body t key) []
                (checksum (key_body t key)).is_word (length-be_bytes 4 protocol_id),
          )
          refl

    pub write_key_packet-sent :
        write_key_packet h c t key s no_buffer
        ≡ ok (cursor (be_bytes 4 crc) (key_body t key) [], init_table s)
    unfolding write_key_packet rest_of_write
    write_key_packet-sent =
        let (rest, length_rest, begun) =
          begin_packet h c t rounded (5 + rounded) rest_of_write refl (omega arith) in
        let fits : 5 + rounded ≡ (5 + rounded) % 2 ^ 32 = omega arith in
        ap (λ n. do b₁ ← init h n no_buffer; b₂ ← write_header h c t b₁; rest_of_write b₂) fits
        ∙ begun
        ∙ finish rest length_rest

    pub verify-key_packet :
        (slack : List ℕ)
        → verify_packet_crc h c s (cursor [] (be_bytes 4 crc ++ key_body t key) slack)
          ≡ ok (packet_type (type_byte t), cursor (header t) front slack, init_table s)
    verify-key_packet slack =
        verify_packet_crc-eq s crc (type_byte t) front slack v (checksum (key_body t key)).is_word
          body-AreBytes (omega (arith, length-front))
        ∙ rw ((==_iff crc crc).1 refl)

    pub read-key :
        (slack : List ℕ)
        → read_public_key h c (cursor (header t) front slack)
          ≡ ok (front ++ replicate (c.key_memory - rounded) 0, cursor (header t ++ front) [] slack)
    unfolding read_public_key
    read-key slack =
        let whole : c.key_memory ≡ rounded + (c.key_memory - rounded) = omega (arith, c.key_fits) in
        ap₂ (λ out ahead. read_buffer out rounded (cursor (header t) ahead slack))
          (ap (λ n. replicate n 0) whole ∙ replicate-add rounded (c.key_memory - rounded) 0)
          (sym (append-nil front))
        ∙ read_buffer-cursor rounded (replicate rounded 0) (replicate (c.key_memory - rounded) 0)
            front (header t) [] slack (length-replicate {A = ℕ} rounded 0) length-front
            (omega (arith, ap length (append-nil front), length-header t, length-front))
