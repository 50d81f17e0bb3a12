-- ===== src/Packet/Exchange.antt =====
-- Sending a key and receiving it, under the checksum.
use game_network.Base.{
  ℕ, ◌+◌, ◌-◌, ◌%◌, ◌^◌, ◌≤◌, ◌<◌, ◌≡◌, ◌≢◌, refl, sym, ap, ◌∙◌, arith, inl, inr, List, [], ◌∷◌,
  ◌++◌, append_assoc, length, length-append, length-take, if◌then◌else◌, take, replicate, some,
  Result, ok, throws, out_of_range, ◌>>=◌, Bool-cases, ==_iff, ◌==◌, gt→leb,
}
use game_network.Base.Int.{to_unsigned}
use game_network.Base.Bytes.{be_bytes, length-be_bytes, AreBytes}
use game_network.Platform.{Host, Crypto}
use game_network.Buffer.{Buffer, no_buffer, load, read_integer}
use game_network.Buffer.Safety.{buffer_at}
use game_network.Buffer.Cursor.{cursor, load_front}
use game_network.Crc.{Statics, init_table, get_crc}
use game_network.Crc.Table
use game_network.Packet.{
  PacketType, invalid_packet, connection_request, challenge, rounded_public_key_size,
  verify_packet_crc, write_connection_request, write_challenge, read_public_key, type_byte,
  packet_type, protocol_id,
}
use game_network.Packet.Header.{header, IsListed, packet_type-type_byte}
use game_network.Packet.Checked.{
  unchecked, checksum, verify_packet_crc-eq, key_body, write_key_packet-sent, verify-key_packet,
  read-key,
}

-- The bytes that a buffer has when it is sent: as many as its size says.
abbrev pub Holds : Buffer → List ℕ → Type 0
Holds b wire = load 0 (to_unsigned b.size) b.memory ≡ some wire

module _ (h : Host) (c : Crypto) where
  -- A receiver checks a packet, and reads a key from it.
  abbrev pub receive_key : Statics → Buffer → Result (PacketType × List ℕ)
  receive_key s b = do
    (t, b₁, s') ← verify_packet_crc h c s b
    (key, b₂) ← read_public_key h c b₁
    ok (t, key)

  Holds-wire :
      (crc : ℕ) (body : List ℕ)
      → length body < 2 ^ 31
      → Holds (cursor (be_bytes 4 crc) body []) (be_bytes 4 crc ++ body)
  Holds-wire crc body small =
      ap (λ l. load 0 ((length (be_bytes 4 crc) + length body) % 2 ^ 32) (some l))
        (sym (append_assoc (be_bytes 4 crc) body []))
      ∙ load_front _ (be_bytes 4 crc ++ body) []
          (omega (arith, length-append (be_bytes 4 crc) body, length-be_bytes 4 crc))

  module _ (s r : Statics) (sender : Table.IsValid s) (receiver : Table.IsValid r)
      (key slack : List ℕ) (bytes : AreBytes key) (long : rounded_public_key_size h c ≤ length key)
      (small : rounded_public_key_size h c < 2 ^ 31 - 5) where
    -- What arrives of a key: its first bytes, and zeros.
    abbrev pub arrives : List ℕ
    arrives =
        take (rounded_public_key_size h c) key
        ++ replicate (c.key_memory - rounded_public_key_size h c) 0

    abbrev pub crc_of : PacketType → ℕ
    crc_of t = (checksum (key_body h c t key)).value

    abbrev pub wire_of : PacketType → List ℕ
    wire_of t = be_bytes 4 (crc_of t) ++ key_body h c t key

    abbrev pub sent : PacketType → Buffer
    sent t = cursor (be_bytes 4 (crc_of t)) (key_body h c t key) []

    pub holds : (t : PacketType) → Holds (sent t) (wire_of t)
    holds t =
        Holds-wire (crc_of t) (key_body h c t key)
          (omega (arith, length-take (rounded_public_key_size h c) key))

    abbrev pub checked : PacketType → Buffer
    checked t = cursor (header t) (take (rounded_public_key_size h c) key) slack

    pub verify-wire_of :
        (t : PacketType)
        → type_byte t < 256
        → IsListed t
        → verify_packet_crc h c r (cursor [] (wire_of t) slack) ≡ ok (t, checked t, init_table r)
    verify-wire_of t lt listed =
        verify-key_packet h c r receiver t lt key bytes long small slack
        ∙ ap (λ t'. ok (t', checked t, init_table r)) (packet_type-type_byte t listed)

    pub read-wire_of :
        (t : PacketType)
        → type_byte t < 256
        → (b : Buffer) × (read_public_key h c (checked t) ≡ ok (arrives, b))
    read-wire_of t lt = (
      cursor (header t ++ take (rounded_public_key_size h c) key) [] slack,
      read-key h c r receiver t lt key bytes long small slack,
    )

    received :
        (t : PacketType) (lt : type_byte t < 256)
        → IsListed t
        → receive_key r (cursor [] (wire_of t) slack) ≡ ok (t, arrives)
    received t lt listed = rw (verify-wire_of t lt listed, (read-wire_of t lt).1) refl

    pub write_connection_request-sent :
        write_connection_request h c key s no_buffer ≡ ok (sent connection_request, init_table s)
    unfolding write_connection_request type_byte
    write_connection_request-sent =
        write_key_packet-sent h c s sender connection_request (omega arith) key bytes long small

    pub write_challenge-sent :
        write_challenge h c key s no_buffer ≡ ok (sent challenge, init_table s)
    unfolding write_challenge type_byte
    write_challenge-sent =
        write_key_packet-sent h c s sender challenge (omega arith) key bytes long small

    -- A connection request and a challenge bring the public key across: writing either into an
    -- empty buffer succeeds and leaves bytes to send, which the receiver accepts with their type,
    -- wherever in its memory they end, and from which it reads the first bytes of the key, as many
    -- as the packet carries, followed by zeros. The tables of both ends may be filled or not.
    pub key_roundtrip :
        (b b' : Buffer) × (wire wire' : List ℕ) × (write_connection_request h c key s no_buffer
          ≡ ok (b, init_table s))
        × Holds b wire
        × (receive_key r (cursor [] wire slack) ≡ ok (connection_request, arrives))
        × (write_challenge h c key s no_buffer ≡ ok (b', init_table s))
        × Holds b' wire'
        × (receive_key r (cursor [] wire' slack) ≡ ok (challenge, arrives))
    unfolding type_byte
    key_roundtrip = (
      sent connection_request,
      sent challenge,
      wire_of connection_request,
      wire_of challenge,
      write_connection_request-sent,
      holds connection_request,
      received connection_request (omega arith) tt,
      write_challenge-sent,
      holds challenge,
      received challenge (omega arith) tt,
    )

  -- No packet passes with a wrong checksum: where one with a type and content of bytes gets any
  -- type but INVALID_PACKET, the number in front is the CRC of the protocol's number and what
  -- follows it, as the bitwise routine computes it.
  pub verify_packet_crc_sound :
      (s s' : Statics) (crc byte : ℕ) (rest slack : List ℕ) (t : PacketType) (b : Buffer)
      → Table.IsValid s
      → crc < 2 ^ 32
      → AreBytes (byte ∷ rest)
      → length rest < 2 ^ 31 - 5
      → verify_packet_crc h c s (cursor [] (be_bytes 4 crc ++ byte ∷ rest) slack) ≡ ok (t, b, s')
      → t ≢ invalid_packet
      → get_crc (unchecked (byte ∷ rest)) (length (unchecked (byte ∷ rest))) ≡ ok crc
  verify_packet_crc_sound s s' crc byte rest slack t b v lt bytes small e ne =
      elim (Bool-cases (crc == value)) [
        | inl same ↦ (checksum (byte ∷ rest)).is_crc ∙ ap ok (sym ((==_iff crc value).0 same))
        | inr differ ↦ absurd (ne (let branch = rw differ at eq in cc (branch, e)))
      ]
    where
      value : ℕ
      value = (checksum (byte ∷ rest)).value

      eq : verify_packet_crc h c s (cursor [] (be_bytes 4 crc ++ byte ∷ rest) slack) ≡ (
          if crc == value
          then ok (
            packet_type byte,
            cursor (be_bytes 4 protocol_id ++ byte ∷ []) rest slack,
            init_table s,
          )
          else ok
              (invalid_packet, cursor (be_bytes 4 protocol_id) (byte ∷ rest) slack, init_table s))
      eq = verify_packet_crc-eq h c s crc byte rest slack v lt bytes small

  -- A packet of one to three bytes is not rejected: the check itself throws.
  pub verify_packet_crc-short :
      (s : Statics) (m : List ℕ) (n : ℕ)
      → 0 < n
      → n < 4
      → verify_packet_crc h c s (buffer_at m n 0) ≡ throws out_of_range
  unfolding verify_packet_crc read_integer
  verify_packet_crc-short s m n some_bytes few = rw (gt→leb n 0 some_bytes, gt→leb 4 n few)
