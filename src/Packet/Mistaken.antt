-- ===== src/Packet/Mistaken.antt =====
-- A signed packet that a server takes for one with a checksum, as it does not know the sender.
use game_network.Base.{
  ℕ, ◌+◌, ◌≡◌, ◌≢◌, arith, false, List, [], ◌∷◌, ◌++◌, length, length-append, append_assoc,
  if◌then◌else◌, Result, ok, throws, fault, ◌>>=◌, gt→leb, ◌==◌, Bool-cases, inl, inr,
}
use game_network.Base.Int.{pos, ℤ_leb}
use game_network.Base.Bytes.{be_bytes, length-be_bytes}
use game_network.Platform.{Host, Crypto}
use game_network.Buffer.{Buffer, read_byte}
use game_network.Buffer.Cursor.{
  cursor, read_integer-cursor, write_integer-cursor, read_byte-cursor, rewind-cursor,
}
use game_network.Crc.{Statics, init_table}
use game_network.Packet.{
  PacketType, invalid_packet, connection_request, disconnect, packet_type, type_byte,
  verify_packet_crc, protocol_id, protocol_id-lt,
}
use game_network.Packet.Header.{header}

-- What the receiver makes of the type: where a packet passes the checksum, it is no request.
abbrev pub NoRequest : Result (PacketType × Buffer × Statics) → Type 0
NoRequest (ok (t, b, s)) = t ≢ connection_request
NoRequest (throws e) = Unit {0}
NoRequest fault = Unit {0}

module _ (h : Host) (c : Crypto) where
  -- The end of the check, from the checksum that has been computed.
  last_test-NoRequest :
      (id : ℕ) (tag slack : List ℕ) (s : Statics) (r : Result ℕ)
      → NoRequest (do
        crc ← r
        if id == crc
            then (do
              (byte, b) ←
                  read_byte (cursor (be_bytes 4 protocol_id) (type_byte disconnect ∷ tag) slack)
              ok (packet_type byte, b, s))
            else ok (
              invalid_packet,
              cursor (be_bytes 4 protocol_id) (type_byte disconnect ∷ tag) slack,
              s,
            ))
  unfolding type_byte packet_type
  last_test-NoRequest id tag slack s (ok crc) = elim (Bool-cases (id == crc)) [
    | inl e ↦ rw (e, read_byte-cursor 6 (be_bytes 4 protocol_id) tag slack) (λ q. cc q)
    | inr e ↦ rw e (λ q. cc q)
  ]
  last_test-NoRequest id tag slack s (throws e) = tt
  last_test-NoRequest id tag slack s fault = tt

  -- A signed disconnect packet is no connection request, whatever its bytes are.
  pub verify_packet_crc-NoRequest :
      (s : Statics) (tag slack : List ℕ)
      → NoRequest (verify_packet_crc h c s (cursor [] (header disconnect ++ tag) slack))
  unfolding verify_packet_crc type_byte
  verify_packet_crc-NoRequest s tag slack =
      let some_bytes : ℤ_leb (pos (0 + length (be_bytes 4 protocol_id ++ 6 ∷ tag))) 0 ≡ false =
        gt→leb _ _ (
          omega (
            arith,
            length-append (be_bytes 4 protocol_id) (6 ∷ tag),
            length-be_bytes 4 protocol_id,
          )) in
      rw
        (
          append_assoc (be_bytes 4 protocol_id) (6 ∷ []) tag,
          some_bytes,
          read_integer-cursor h protocol_id [] (6 ∷ tag) slack protocol_id-lt,
          rewind-cursor (be_bytes 4 protocol_id) (6 ∷ tag) slack,
          write_integer-cursor h protocol_id [] (be_bytes 4 protocol_id) (6 ∷ tag) slack
              protocol_id-lt (length-be_bytes 4 protocol_id),
        )
        (last_test-NoRequest protocol_id tag slack (init_table s) _)
