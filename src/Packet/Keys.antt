-- ===== src/Packet/Keys.antt =====
-- The public keys of a key exchange in the packets that carry them.
use game_network.Base.{
  ℕ, ◌+◌, ◌-◌, ◌^◌, ◌≤◌, ◌<◌, ◌≡◌, sym, ap, ◌∙◌, arith, List, [], ◌++◌, take, take-append-drop,
  replicate, length, length-append, gt→leb, false, ok, length-take,
}
use game_network.Base.Int.{pos, ℤ_leb}
use game_network.Base.Bytes.{be_bytes, length-be_bytes}
use game_network.Platform.{Host, Crypto, KeyExchange, KeySizes}
use game_network.Buffer.{Buffer, no_buffer}
use game_network.Buffer.Cursor.{cursor}
use game_network.Crc.{Statics, init_table}
use game_network.Crc.Table
use game_network.Packet.{
  PacketType, connection_request, challenge, type_byte, verify_packet_crc, read_public_key,
  write_connection_request, write_challenge, rounded_public_key_size,
}
use game_network.Packet.Checked.{key_body}
use game_network.Packet.Header.{IsListed}
use game_network.Packet.Exchange
use game_network.Packet.Exchange.{Holds}

pub request_byte : type_byte connection_request < 256
unfolding type_byte
request_byte = omega arith

pub challenge_byte : type_byte challenge < 256
unfolding type_byte
challenge_byte = omega arith

module _ (h : Host) (c : Crypto) (x : KeyExchange) (sizes : KeySizes c x) (n : ℕ) where
  abbrev pub key : List ℕ
  key = x.public_of n

  pub long : rounded_public_key_size h c ≤ length key
  long = omega (arith, sizes.length_public n, c.key_fits)

  pub low : rounded_public_key_size h c < 2 ^ 31 - 5
  low = omega (arith, sizes.small)

  -- A key arrives whole.
  whole :
      take (rounded_public_key_size h c) key
        ++ replicate (c.key_memory - rounded_public_key_size h c) 0
      ≡ key
  whole =
      ap (λ l. take (rounded_public_key_size h c) key ++ l) (sym (sizes.public_rest n))
      ∙ take-append-drop (rounded_public_key_size h c) key

  module _ (s : Statics) (v : Table.IsValid s) where
    abbrev pub packet_of : PacketType → Buffer
    packet_of = Exchange.sent h c s s v v key [] (sizes.public_bytes n) long low

    abbrev pub wire_of : PacketType → List ℕ
    wire_of = Exchange.wire_of h c s s v v key [] (sizes.public_bytes n) long low

    pub packet_of-Holds : (t : PacketType) → Holds (packet_of t) (wire_of t)
    packet_of-Holds = Exchange.holds h c s s v v key [] (sizes.public_bytes n) long low

    -- A packet with a key is not empty.
    pub wire_of-ne : (t : PacketType) → ℤ_leb (pos (0 + length (wire_of t))) 0 ≡ false
    wire_of-ne t = gt→leb _ _ (
        omega (
          arith,
          length-append
              (be_bytes 4 (Exchange.crc_of h c s s v v key [] (sizes.public_bytes n) long low t))
              (key_body h c t key),
          length-be_bytes 4 (Exchange.crc_of h c s s v v key [] (sizes.public_bytes n) long low t),
        ))

    -- A packet with a key fits the receiver's buffer.
    pub wire_of-fits : (t : PacketType) → length (wire_of t) ≤ 1024
    wire_of-fits t = omega (
      arith,
      sizes.small,
      length-append
          (be_bytes 4 (Exchange.crc_of h c s s v v key [] (sizes.public_bytes n) long low t))
          (key_body h c t key),
      length-be_bytes 4 (Exchange.crc_of h c s s v v key [] (sizes.public_bytes n) long low t),
      length-take (rounded_public_key_size h c) key,
    )

    pub write_connection_request-sent :
        write_connection_request h c key s no_buffer
        ≡ ok (packet_of connection_request, init_table s)
    write_connection_request-sent =
        Exchange.write_connection_request-sent h c s s v v key [] (sizes.public_bytes n) long low

    pub write_challenge-sent :
        write_challenge h c key s no_buffer ≡ ok (packet_of challenge, init_table s)
    write_challenge-sent =
        Exchange.write_challenge-sent h c s s v v key [] (sizes.public_bytes n) long low

    module _ (r : Statics) (w : Table.IsValid r) (slack : List ℕ) (t : PacketType)
        (listed : IsListed t) (lt : type_byte t < 256) where
      abbrev pub checked : Buffer
      checked = Exchange.checked h c s r v w key slack (sizes.public_bytes n) long low t

      pub verify-wire_of :
          verify_packet_crc h c r (cursor [] (wire_of t) slack) ≡ ok (t, checked, init_table r)
      verify-wire_of =
          Exchange.verify-wire_of h c s r v w key slack (sizes.public_bytes n) long low t lt listed

      pub read-wire_of : (b : Buffer) × (read_public_key h c checked ≡ ok (key, b))
      read-wire_of =
          let (b, e) =
            Exchange.read-wire_of h c s r v w key slack (sizes.public_bytes n) long low t lt in
          (b, e ∙ ap (λ l. ok (l, b)) whole)
