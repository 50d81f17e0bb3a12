-- ===== src/Packet/Control.antt =====
-- The signed packets with no game data: challenge response, connection accepted, disconnect.
use game_network.Base.{
  ℕ, ◌+◌, ◌^◌, ◌<◌, ◌≡◌, refl, sym, ap, ◌∙◌, arith, List, [], ◌++◌, length-append, Result, ok,
  ◌>>=◌, append-nil, ◌-◌,
}
use game_network.Base.Bytes.{be_bytes, length-be_bytes}
use game_network.Platform.{Host, Crypto}
use game_network.Buffer.{Buffer, no_buffer, write_integer}
use game_network.Buffer.Cursor.{cursor, write_integer-cursor, read_integer-cursor}
use game_network.Packet.{
  write_hmac, PacketType, challenge_response, connection_accepted, disconnect, verify_packet_hmac,
  write_challenge_response, write_connection_accepted, read_connection_accepted, write_disconnect,
}
use game_network.Packet.Header.{header, length-header, filled, begin_packet, IsListed}
use game_network.Packet.Signed.{signed, write_hmac-cursor, verify_packet_hmac-accepts}

module _ (h : Host) (c : Crypto) where
  -- The buffer that is sent.
  abbrev pub sent : List ℕ → Buffer
  sent wire = cursor wire [] []

  -- A receiver checks a packet, and reads what is behind the header.
  abbrev pub receive :
      {B : Type 0} → (Buffer → Result (B × Buffer)) → List ℕ → Buffer → Result (PacketType × B)
  receive read key b = do
    (t, b₁) ← verify_packet_hmac h c key b
    (content, b₂) ← read b₁
    ok (t, content)

  pub write_challenge_response-sent :
      (key : List ℕ)
      → c.hmac_size < 2 ^ 31 - 5
      → write_challenge_response h c key no_buffer
        ≡ ok (sent (signed h c key (header challenge_response)))
  unfolding write_challenge_response
  write_challenge_response-sent key small =
      let (rest, length_rest, begun) =
        begin_packet h c challenge_response c.hmac_size (5 + c.hmac_size) (write_hmac h c key 5)
          refl (omega arith) in
      begun
      ∙ write_hmac-cursor h c key (header challenge_response) rest 5
          (length-header challenge_response) length_rest (omega arith)

  pub write_disconnect-sent :
      (key : List ℕ)
      → c.hmac_size < 2 ^ 31 - 5
      → write_disconnect h c key no_buffer ≡ ok (sent (signed h c key (header disconnect)))
  unfolding write_disconnect
  write_disconnect-sent key small =
      let (rest, length_rest, begun) =
        begin_packet h c disconnect c.hmac_size (5 + c.hmac_size) (write_hmac h c key 5) refl
          (omega arith) in
      begun
      ∙ write_hmac-cursor h c key (header disconnect) rest 5 (length-header disconnect) length_rest
          (omega arith)

  -- A bare packet of any listed type is accepted with it.
  pub verify-bare :
      (key : List ℕ) (t : PacketType) (slack : List ℕ)
      → IsListed t
      → c.hmac_size < 2 ^ 31 - 5
      → verify_packet_hmac h c key (cursor [] (signed h c key (header t)) slack)
        ≡ ok (t, cursor (header t) (c.hmac key (header t)) slack)
  verify-bare key t slack listed small =
      ap (λ l. verify_packet_hmac h c key (cursor [] (signed h c key l) slack))
        (sym (append-nil (header t)))
      ∙ verify_packet_hmac-accepts h c key t [] slack listed (omega arith)
      ∙ ap (λ l. ok (t, cursor (header t) (c.hmac key l) slack)) (append-nil (header t))

  -- A challenge response and a disconnect packet, of which nothing but the type is read, arrive as
  -- what they were sent: writing one into an empty buffer succeeds, and the receiver with the same
  -- key gets its type, wherever in the receiver's memory the packet ends.
  pub bare_roundtrip :
      (key slack : List ℕ)
      → c.hmac_size < 2 ^ 31 - 5
      → (response leave : List ℕ) × (write_challenge_response h c key no_buffer
          ≡ ok (sent response))
        × (write_disconnect h c key no_buffer ≡ ok (sent leave))
        × ((do (t, b) ← verify_packet_hmac h c key (cursor [] response slack); ok t)
            ≡ ok challenge_response)
        × ((do (t, b) ← verify_packet_hmac h c key (cursor [] leave slack); ok t) ≡ ok disconnect)
  bare_roundtrip key slack small = (
    signed h c key (header challenge_response),
    signed h c key (header disconnect),
    write_challenge_response-sent key small,
    write_disconnect-sent key small,
    rw (verify-bare key challenge_response slack tt small),
    rw (verify-bare key disconnect slack tt small),
  )

  -- The text of a packet that accepts a client.
  abbrev pub accepted_text : ℕ → List ℕ
  accepted_text id = header connection_accepted ++ be_bytes 4 id

  pub write_connection_accepted-sent :
      (id : ℕ) (key : List ℕ)
      → id < 2 ^ 32
      → c.hmac_size < 2 ^ 31 - 9
      → write_connection_accepted h c id key no_buffer
        ≡ ok (sent (signed h c key (accepted_text id)))
  unfolding write_connection_accepted
  write_connection_accepted-sent id key lt small =
      let (rest, length_rest, begun) =
        begin_packet h c connection_accepted (4 + c.hmac_size) (9 + c.hmac_size)
          (λ b. do b₃ ← write_integer h id b; write_hmac h c key 9 b₃) (omega arith)
          (omega arith) in
      let (left, length_left, put) =
        filled 4 c.hmac_size (header connection_accepted) (be_bytes 4 id) rest (write_integer h id)
          length_rest
          (λ old mid p q. write_integer-cursor h id (header connection_accepted) old mid [] lt p) in
      begun
      ∙ rw put (
          write_hmac-cursor h c key (accepted_text id) left 9
            (omega (
              arith,
              length-append (header connection_accepted) (be_bytes 4 id),
              length-header connection_accepted,
              length-be_bytes 4 id,
            ))
            length_left (omega arith))

  pub verify-accepted :
      (id : ℕ) (key slack : List ℕ)
      → c.hmac_size < 2 ^ 31 - 9
      → verify_packet_hmac h c key (cursor [] (signed h c key (accepted_text id)) slack)
        ≡ ok (
          connection_accepted,
          cursor
              (header connection_accepted)
              (be_bytes 4 id ++ c.hmac key (accepted_text id))
              slack,
        )
  verify-accepted id key slack small =
      verify_packet_hmac-accepts h c key connection_accepted (be_bytes 4 id) slack tt
        (omega (arith, length-be_bytes 4 id))

  pub read-accepted :
      (id : ℕ) (key slack : List ℕ)
      → id < 2 ^ 32
      → (b : Buffer) × (read_connection_accepted h c (
            cursor
              (header connection_accepted)
              (be_bytes 4 id ++ c.hmac key (accepted_text id))
              slack)
          ≡ ok (id, b))
  unfolding read_connection_accepted
  read-accepted id key slack lt = (
    cursor (accepted_text id) (c.hmac key (accepted_text id)) slack,
    read_integer-cursor h id (header connection_accepted) (c.hmac key (accepted_text id)) slack lt,
  )

  -- A client gets the index that the server gave it: writing the packet succeeds for every index
  -- of 32 bits, and the receiver with the same key gets the type and reads the index, wherever in
  -- the receiver's memory the packet ends.
  pub connection_accepted_roundtrip :
      (id : ℕ) (key slack : List ℕ)
      → id < 2 ^ 32
      → c.hmac_size < 2 ^ 31 - 9
      → (wire : List ℕ) × (write_connection_accepted h c id key no_buffer ≡ ok (sent wire))
        × (receive (read_connection_accepted h c) key (cursor [] wire slack)
            ≡ ok (connection_accepted, id))
  unfolding read_connection_accepted
  connection_accepted_roundtrip id key slack lt small = (
    signed h c key (accepted_text id),
    write_connection_accepted-sent id key lt small,
    rw (verify-accepted id key slack small, (read-accepted id key slack lt).1) refl,
  )
