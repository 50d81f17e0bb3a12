-- ===== src/Packet/Data.antt =====
-- The packet that carries game data.
use game_network.Base.{
  ℕ, ◌+◌, ◌-◌, ◌%◌, ◌^◌, ◌<◌, ◌≡◌, refl, ap, ◌∙◌, arith, List, [], ◌++◌, length, length-append, ok,
  append_assoc, ◌>>=◌,
}
use game_network.Base.Bytes.{be_bytes, length-be_bytes}
use game_network.Platform.{Host, Crypto}
use game_network.Buffer.{Buffer, no_buffer, write_integer, write_short, write_buffer}
use game_network.Crc.{u32}
use game_network.Buffer.Cursor.{
  cursor, write_integer-cursor, read_integer-cursor, write_short-cursor, read_short-cursor,
  write_buffer_all, read_buffer_all,
}
use game_network.Packet.{
  ConnectionDataPacket, connection_data, verify_packet_hmac, write_hmac, write_connection_data,
  read_connection_data,
}
use game_network.Packet.Header.{header, length-header, filled, begin_packet}
use game_network.Packet.Signed.{
  signed, length-signed, write_hmac-cursor, verify_packet_hmac-accepts,
}
use game_network.Packet.Control.{sent, receive}

-- The fields fit their types, and the data has the size that is stated.
pub record IsSendable (p : ConnectionDataPacket) : Type 0 where
  pub sequence_fits : p.sequence < 2 ^ 16
  pub has_size : length p.game_data ≡ p.game_data_size

module _ (h : Host) (c : Crypto) (p : ConnectionDataPacket) (v : IsSendable p)
    (small : p.game_data_size + c.hmac_size < 2 ^ 31 - 11) where
  abbrev pub size : ℕ
  size = p.game_data_size

  abbrev pub with_sequence : List ℕ
  with_sequence = header connection_data ++ be_bytes 2 p.sequence

  abbrev pub with_size : List ℕ
  with_size = with_sequence ++ be_bytes 4 size

  abbrev pub text : List ℕ
  text = with_size ++ p.game_data

  length-with_size : length with_size ≡ 11
  length-with_size = omega (
    arith,
    length-append with_sequence (be_bytes 4 size),
    length-append (header connection_data) (be_bytes 2 p.sequence),
    length-header connection_data,
    length-be_bytes 4 size,
    length-be_bytes 2 p.sequence,
  )

  length-text : length text ≡ 11 + size
  length-text = omega (arith, length-append with_size p.game_data, length-with_size, v.has_size)

  pub write_connection_data-sent :
      (key : List ℕ)
      → write_connection_data h c p key no_buffer ≡ ok (sent h c (signed h c key text))
  unfolding write_connection_data
  write_connection_data-sent key =
      let tail = λ (b : Buffer). write_hmac h c key (u32 (11 + size)) b in
      let content = λ (b : Buffer). write_buffer p.game_data size b in
      let (r₁, l₁, begun) =
        begin_packet h c connection_data (2 + (4 + (size + c.hmac_size))) (11 + size + c.hmac_size)
          (λ b. do
            b₃ ← write_short h p.sequence b
            b₄ ← write_integer h size b₃
            b₅ ← content b₄
            tail b₅)
          (omega arith) (omega arith) in
      let (r₂, l₂, put_sequence) =
        filled 2 (4 + (size + c.hmac_size)) (header connection_data) (be_bytes 2 p.sequence) r₁
          (write_short h p.sequence) l₁
          (λ old mid q _.
            write_short-cursor h p.sequence (header connection_data) old mid [] v.sequence_fits
              q) in
      let (r₃, l₃, put_size) =
        filled 4 (size + c.hmac_size) with_sequence (be_bytes 4 size) r₂ (write_integer h size) l₂
          (λ old mid q _. write_integer-cursor h size with_sequence old mid [] (omega arith) q) in
      let (r₄, l₄, put_data) =
        filled size c.hmac_size with_size p.game_data r₃ content l₃ (λ old mid q r.
          write_buffer_all size p.game_data with_size old mid [] v.has_size q
            (omega (arith, length-append old mid, length-with_size))) in
      let fits : (11 + size) % 2 ^ 32 ≡ 11 + size = omega arith in
      begun
      ∙ rw (put_sequence, put_size, put_data)
          (ap (λ n. write_hmac h c key n (cursor text r₄ [])) fits
            ∙ write_hmac-cursor h c key text r₄ (11 + size) length-text l₄ (omega arith))

  fields :
      text ≡ header connection_data ++ (be_bytes 2 p.sequence ++ (be_bytes 4 size ++ p.game_data))
  fields = simp append_assoc

  read_fields :
      (tag slack : List ℕ)
      → length tag ≡ c.hmac_size
      → read_connection_data h c (
          cursor
            (header connection_data)
            ((be_bytes 2 p.sequence ++ (be_bytes 4 size ++ p.game_data)) ++ tag)
            slack)
        ≡ ok (p, cursor text tag slack)
  unfolding read_connection_data
  read_fields tag slack e =
      rw
        (
          append_assoc (be_bytes 2 p.sequence) (be_bytes 4 size ++ p.game_data) tag,
          append_assoc (be_bytes 4 size) p.game_data tag,
          read_short-cursor h p.sequence (header connection_data)
              (be_bytes 4 size ++ (p.game_data ++ tag)) slack v.sequence_fits,
          read_integer-cursor h size with_sequence (p.game_data ++ tag) slack (omega arith),
          read_buffer_all size (h.fresh size) p.game_data with_size tag slack (h.length_fresh size)
              v.has_size (omega (arith, length-append p.game_data tag, length-with_size)),
        )
        refl

  abbrev pub content : List ℕ
  content = be_bytes 2 p.sequence ++ (be_bytes 4 size ++ p.game_data)

  content_size : length content ≡ 6 + size
  content_size = omega (
    arith,
    length-append (header connection_data) content,
    length-header connection_data,
    length-text,
    ap length fields,
  )

  abbrev pub data_wire : List ℕ → List ℕ
  data_wire key = signed h c key text

  pub length-data_wire : (key : List ℕ) → length (data_wire key) ≡ 11 + size + c.hmac_size
  length-data_wire key = omega (arith, length-signed h c key text, length-text)

  -- What the check leaves to be read, and that it is read.
  abbrev pub checked : List ℕ → List ℕ → Buffer
  checked key slack =
      cursor (header connection_data) (content ++ c.hmac key (header connection_data ++ content))
        slack

  pub verify-data_wire :
      (key slack : List ℕ)
      → verify_packet_hmac h c key (cursor [] (data_wire key) slack)
        ≡ ok (connection_data, checked key slack)
  verify-data_wire key slack = rw fields (
      verify_packet_hmac-accepts h c key connection_data content slack tt
        (omega (arith, content_size)))

  abbrev tag_of : List ℕ → List ℕ
  tag_of key = c.hmac key (header connection_data ++ content)

  -- What is left of the packet once it has been read: the signature.
  abbrev pub rest : List ℕ → List ℕ → Buffer
  rest key slack = cursor text (tag_of key) slack

  pub read-data_wire :
      (key slack : List ℕ) → read_connection_data h c (checked key slack) ≡ ok (p, rest key slack)
  read-data_wire key slack =
      read_fields (tag_of key) slack (c.length_hmac key (header connection_data ++ content))

  pub length-rest : (key : List ℕ) → length text + length (tag_of key) ≡ 11 + size + c.hmac_size
  length-rest key =
      omega (arith, length-text, c.length_hmac key (header connection_data ++ content))

  -- Game data arrive as they were sent: writing a packet whose fields fit succeeds, and the
  -- receiver with the same key gets the type and reads the same sequence number, size and data,
  -- wherever in the receiver's memory the packet ends.
  pub connection_data_roundtrip :
      (key slack : List ℕ)
      → (wire : List ℕ) × (write_connection_data h c p key no_buffer ≡ ok (sent h c wire))
        × (receive h c (read_connection_data h c) key (cursor [] wire slack)
            ≡ ok (connection_data, p))
  connection_data_roundtrip key slack = (
    data_wire key,
    write_connection_data-sent key,
    rw (verify-data_wire key slack, read-data_wire key slack) refl,
  )
