-- ===== src/Packet/Signed.antt =====
-- The packets that end in an HMAC: what is written, and what the check accepts.
use game_network.Base.{
  ℕ, ◌+◌, ◌-◌, ◌^◌, ◌<◌, ◌≡◌, refl, sym, ap, ◌∙◌, inl, inr, arith, false, List, [], ◌∷◌, ◌++◌,
  append_assoc, length, take_all, length-append, gt→leb, le→leb, ==_iff, Bool-cases, Result, ok,
  ◌>>=◌, if◌then◌else◌, ◌==◌, ◌≢◌,
}
use game_network.Base.Int.{ℤ_leb, to_unsigned}
use game_network.Base.Bytes.{be_bytes}
use game_network.Platform.{Host, Crypto}
use game_network.Buffer.{Buffer, new_buffer, behind, read_integer, read_byte}
use game_network.Buffer.Cursor.{
  cursor, read_buffer_all, read_buffer_last, write_buffer_last, rewind_end, length-new_buffer,
  load_front, read_integer-cursor, read_byte-cursor,
}
use game_network.Packet.{
  PacketType, invalid_packet, verify_packet_hmac, write_hmac, same_bytes, packet_type, type_byte,
  protocol_id, protocol_id-lt,
}
use game_network.Crc.{u32}
use game_network.Packet.Header.{
  header, length-header, IsListed, packet_type-type_byte, same_bytes_refl, same_bytes-eq,
}

module _ (h : Host) (c : Crypto) where
  -- A text, signed under a key.
  abbrev pub signed : List ℕ → List ℕ → List ℕ
  signed key text = text ++ c.hmac key text

  pub length-signed : (key text : List ℕ) → length (signed key text) ≡ length text + c.hmac_size
  length-signed key text =
      length-append text (c.hmac key text) ∙ ap (λ n. length text + n) (c.length_hmac key text)

  -- The signature goes behind a text that leaves room for it, and for nothing more.
  pub write_hmac-cursor :
      (key text old : List ℕ) (n : ℕ)
      → length text ≡ n
      → length old ≡ c.hmac_size
      → n + c.hmac_size < 2 ^ 32
      → write_hmac h c key n (cursor text old []) ≡ ok (cursor (signed key text) [] [])
  unfolding write_hmac
  write_hmac-cursor key text old n e f lt = rw (load_front n text (old ++ []) e) (
      write_buffer_last c.hmac_size (c.hmac key text) text old [] (c.length_hmac key text) f
        (omega arith))

  -- What `VerifyPacketHMAC` does once the signatures agree.
  abbrev pub read_type : Buffer → Result (PacketType × Buffer)
  read_type b = do
    (id, b₁) ← read_integer h b
    if id == protocol_id
        then (do (byte, b₂) ← read_byte b₁; ok (packet_type byte, b₂))
        else ok (invalid_packet, b₁)

  module _ (key text tag slack : List ℕ) (some_text : 0 < length text)
      (of_size : length tag ≡ c.hmac_size) (small : length text + c.hmac_size < 2 ^ 31) where
    abbrev pub received : Buffer
    received = cursor [] (text ++ tag) slack

    too_long : ℤ_leb received.size c.hmac_size ≡ false
    too_long = gt→leb _ _ (omega (arith, length-append text tag))

    text_size : u32 (to_unsigned received.size + 2 ^ 32 - c.hmac_size) ≡ length text
    text_size = omega (arith, length-append text tag)

    -- The check compares the signature of the text with the tag behind it.
    pub verify_packet_hmac-eq : verify_packet_hmac h c key received ≡ (
        if same_bytes c.hmac_size (c.hmac key text) tag
        then read_type received
        else ok (invalid_packet, received))
    unfolding verify_packet_hmac
    verify_packet_hmac-eq =
        rw
          (
            too_long,
            text_size,
            read_buffer_all (length text) (behind (new_buffer h (length text)).memory) text [] tag
                slack (length-new_buffer h (length text)) refl
                (omega (arith, length-append text tag)),
            le→leb (0 + length text) (length text) (omega arith),
            take_all text,
            read_buffer_last c.hmac_size (behind (new_buffer h c.hmac_size).memory) tag text slack
                (length-new_buffer h c.hmac_size) of_size (omega arith),
          )
          (ap
            (λ b.
              if same_bytes c.hmac_size (c.hmac key text) tag
              then read_type b
              else ok (invalid_packet, b))
            (rewind_end (text ++ tag) slack))

  read_type-header :
      (t : PacketType) (rest slack : List ℕ)
      → IsListed t
      → read_type (cursor [] (header t ++ rest) slack) ≡ ok (t, cursor (header t) rest slack)
  read_type-header t rest slack listed =
      rw
        (
          append_assoc (be_bytes 4 protocol_id) (type_byte t ∷ []) rest,
          read_integer-cursor h protocol_id [] (type_byte t ∷ rest) slack protocol_id-lt,
          (==_iff protocol_id protocol_id).1 refl,
          read_byte-cursor (type_byte t) (be_bytes 4 protocol_id) rest slack,
          packet_type-type_byte t listed,
        )
        refl

  -- Every packet that begins with the header of a listed type and ends in its signature under the
  -- key is accepted, with that type, wherever in the receiver's memory it ends. What is behind the
  -- header is left to be read.
  pub verify_packet_hmac-accepts :
      (key : List ℕ) (t : PacketType) (content slack : List ℕ)
      → IsListed t
      → length content + c.hmac_size < 2 ^ 31 - 5
      → verify_packet_hmac h c key (cursor [] (signed key (header t ++ content)) slack)
        ≡ ok (t, cursor (header t) (content ++ c.hmac key (header t ++ content)) slack)
  verify_packet_hmac-accepts key t content slack listed small =
      let text = header t ++ content in
      let tag = c.hmac key text in
      let size : length text ≡ 5 + length content =
        length-append (header t) content ∙ ap (λ n. n + length content) (length-header t) in
      verify_packet_hmac-eq key text tag slack (omega arith) (c.length_hmac key text) (omega arith)
      ∙ rw
          (
            same_bytes_refl c.hmac_size tag (c.length_hmac key text),
            append_assoc (header t) content tag,
          )
          (read_type-header t (content ++ tag) slack listed)

  -- No packet passes without its signature: where a text that is not empty, with a tag of the
  -- signature's size behind it, gets any type but INVALID_PACKET, the tag is the signature of the
  -- text under the key.
  pub verify_packet_hmac-authentic :
      (key text tag slack : List ℕ) (t : PacketType) (b : Buffer)
      → 0 < length text
      → length tag ≡ c.hmac_size
      → length text + c.hmac_size < 2 ^ 31
      → verify_packet_hmac h c key (cursor [] (text ++ tag) slack) ≡ ok (t, b)
      → t ≢ invalid_packet
      → tag ≡ c.hmac key text
  verify_packet_hmac-authentic key text tag slack t b some_text of_size small e ne =
      elim (Bool-cases (same_bytes c.hmac_size (c.hmac key text) tag)) [
        | inl same ↦
            sym (
              same_bytes-eq c.hmac_size (c.hmac key text) tag (c.length_hmac key text) of_size same)
        | inr differ ↦ absurd (ne (rejected differ))
      ]
    where
      rejected : same_bytes c.hmac_size (c.hmac key text) tag ≡ false → t ≡ invalid_packet
      rejected differ =
          let eq = verify_packet_hmac-eq key text tag slack some_text of_size small in
          let branch = rw differ at eq in cc (branch, e)
