-- ===== src/Packet.antt =====
-- Packets/Packet.h and Packets/Packet.cpp: what is sent, and the checks of what is received.
--
-- A packet is the protocol's number or a checksum (4 bytes), its type (1 byte) and its content. The
-- packets of the key exchange carry a CRC, which is taken with the protocol's number in its place;
-- the others end in an HMAC under the shared key. The messages of `g_debugCallback` are left out.
pub mod Control
pub mod Header
pub mod Checked
pub mod Exchange
pub mod Mistaken
pub mod Filling
pub mod Safety
pub mod Arriving
pub mod Signed
pub mod Data
pub mod Keys
pub mod Sequence
use game_network.Base.{
  ℕ, zero, suc, ◌+◌, ◌-◌, ◌*◌, ◌/◌, ◌^◌, ◌<◌, ◌≡◌, arith, Bool, true, false, ◌&&◌, ◌||◌,
  if◌then◌else◌, ltb, leb, ◌==◌, List, [], ◌∷◌, some, replicate, Result, ok, throws, fault, ◌>>=◌,
  accessed, dec_lt,
}
use game_network.Base.Int.{to_unsigned, ℤ_leb}
use game_network.Platform.{Host, Crypto}
use game_network.Buffer.{
  Buffer, load, new_buffer, init, write_integer, write_short, write_byte, write_buffer,
  read_integer, read_short, read_byte, read_buffer, rewind, behind,
}
use game_network.Checksums.{fletcher32_improved}
use game_network.Crc.{Statics, init_table, get_crc_table_based, u32}

-- "NetworkPluginV1.0.0" with its closing 0, read as 16-bit words.
abbrev protocol_words : List ℕ
protocol_words =
    (b'N' + 256 * b'e')
    ∷ (b't' + 256 * b'w')
    ∷ (b'o' + 256 * b'r')
    ∷ (b'k' + 256 * b'P')
    ∷ (b'l' + 256 * b'u')
    ∷ (b'g' + 256 * b'i')
    ∷ (b'n' + 256 * b'V')
    ∷ (b'1' + 256 * b'.')
    ∷ (b'0' + 256 * b'.')
    ∷ b'0'
    ∷ []

value_of : Result ℕ → ℕ
value_of (ok v) = v
value_of (throws e) = 0
value_of fault = 0

-- `Packet::PROTOCOL_ID`
pub protocol_id : ℕ
unfolding value_of fletcher32_improved
protocol_id = value_of (fletcher32_improved protocol_words 10)

-- `unlisted` is a value of the enumeration's type that no enumerator has.
pub data PacketType : Type 0 where
  invalid_packet connection_request challenge challenge_response : PacketType
  connection_accepted connection_data disconnect : PacketType
  unlisted : ℕ → PacketType

-- `static_cast<uint8_t>(type)` and `static_cast<PacketType>(byte)`.
unfoldable pub type_byte : PacketType → ℕ
type_byte invalid_packet = 0
type_byte connection_request = 1
type_byte challenge = 2
type_byte challenge_response = 3
type_byte connection_accepted = 4
type_byte connection_data = 5
type_byte disconnect = 6
type_byte (unlisted n) = n

unfoldable pub packet_type : ℕ → PacketType
packet_type zero = invalid_packet
packet_type (suc zero) = connection_request
packet_type (suc (suc zero)) = challenge
packet_type (suc (suc (suc zero))) = challenge_response
packet_type (suc (suc (suc (suc zero)))) = connection_accepted
packet_type (suc (suc (suc (suc (suc zero))))) = connection_data
packet_type (suc (suc (suc (suc (suc (suc zero)))))) = disconnect
packet_type (suc (suc (suc (suc (suc (suc (suc n))))))) = unlisted (n + 7)

-- `SequenceGreaterThan<uint16_t>`: a difference, of type `int`, against 65535 * 0.5f.
unfoldable pub sequence_greater_than : ℕ → ℕ → Bool
sequence_greater_than s t =
    (ltb t s && leb (2 * (s - t)) 65535) || (ltb s t && ltb 65535 (2 * (t - s)))

abbrev pub minimum_header_size : ℕ
minimum_header_size = 5

abbrev pub connection_accepted_packet_size : ℕ
connection_accepted_packet_size = minimum_header_size + 4

abbrev pub connection_data_packet_size : ℕ
connection_data_packet_size = minimum_header_size + 2 + 4

-- `memcmp(a, b, n) == 0`
unfoldable pub same_bytes : ℕ → List ℕ → List ℕ → Bool
same_bytes zero xs ys = true
same_bytes (suc n) (x ∷ xs) (y ∷ ys) = (x == y) && same_bytes n xs ys
same_bytes (suc n) _ _ = false

pub record ConnectionDataPacket : Type 0 where
  pub sequence : ℕ
  pub game_data_size : ℕ
  pub game_data : List ℕ

module _ (h : Host) (c : Crypto) where
  abbrev pub rounded_public_key_size : ℕ
  rounded_public_key_size = (c.public_key_size + 7) / 8

  abbrev pub key_packet_size : ℕ
  key_packet_size = minimum_header_size + rounded_public_key_size

  unfoldable pub verify_packet_hmac : List ℕ → Buffer → Result (PacketType × Buffer)
  unfolding same_bytes packet_type
  verify_packet_hmac key b = if ℤ_leb b.size c.hmac_size then ok (invalid_packet, b) else (do
    let message_size = u32 (to_unsigned b.size + 2 ^ 32 - c.hmac_size)
    let message = new_buffer h message_size
    (text, b₁) ← read_buffer (behind message.memory) message_size b
    signed ← accessed (load 0 message_size (some text))
    let new_hmac = c.hmac key signed
    let hmac = new_buffer h c.hmac_size
    (tag, b₂) ← read_buffer (behind hmac.memory) c.hmac_size b₁
    if same_bytes c.hmac_size new_hmac tag
        then (do
          (id, b₃) ← read_integer h (rewind b₂)
          if id == protocol_id
              then (do (byte, b₄) ← read_byte b₃; ok (packet_type byte, b₄))
              else ok (invalid_packet, b₃))
        else ok (invalid_packet, rewind b₂))

  -- The statics of the checksum are passed along.
  unfoldable pub verify_packet_crc : Statics → Buffer → Result (PacketType × Buffer × Statics)
  unfolding packet_type
  verify_packet_crc s b = if ℤ_leb b.size 0 then ok (invalid_packet, b, s) else (do
    let s' = init_table s
    (crc, b₁) ← read_integer h b
    b₂ ← write_integer h protocol_id (rewind b₁)
    new_crc ← get_crc_table_based s' (behind b₂.memory) (to_unsigned b₂.size)
    if crc == new_crc
        then (do (byte, b₃) ← read_byte b₂; ok (packet_type byte, b₃, s'))
        else ok (invalid_packet, b₂, s'))

  -- The protocol's number and the type, which begin every packet.
  unfoldable pub write_header : PacketType → Buffer → Result Buffer
  unfolding type_byte
  write_header t b = do b₁ ← write_integer h protocol_id b; write_byte (type_byte t) b₁

  -- `ConnectionRequestPacket::Write` and `ChallengePacket::Write` differ in the type.
  unfoldable pub write_key_packet :
      PacketType → List ℕ → Statics → Buffer → Result (Buffer × Statics)
  unfolding write_header
  write_key_packet t public_key s b = do
    let s' = init_table s
    b₁ ← init h key_packet_size b
    b₂ ← write_header t b₁
    b₃ ← write_buffer public_key rounded_public_key_size b₂
    crc ← get_crc_table_based s' (behind b₃.memory) key_packet_size
    b₄ ← write_integer h crc (rewind b₃)
    ok (b₄, s')

  unfoldable pub write_connection_request : List ℕ → Statics → Buffer → Result (Buffer × Statics)
  unfolding write_key_packet
  write_connection_request = write_key_packet connection_request

  unfoldable pub write_challenge : List ℕ → Statics → Buffer → Result (Buffer × Statics)
  unfolding write_key_packet
  write_challenge = write_key_packet challenge

  -- `ConnectionRequestPacket::Read` and `ChallengePacket::Read`, into the memory of a key that is 0.
  unfoldable pub read_public_key : Buffer → Result (List ℕ × Buffer)
  read_public_key b = read_buffer (replicate c.key_memory 0) rounded_public_key_size b

  -- The HMAC of the first `n` bytes, behind what has been written.
  unfoldable pub write_hmac : List ℕ → ℕ → Buffer → Result Buffer
  write_hmac key n b = do
    text ← accessed (load 0 n b.memory)
    write_buffer (c.hmac key text) c.hmac_size b

  unfoldable pub write_challenge_response : List ℕ → Buffer → Result Buffer
  unfolding write_header write_hmac
  write_challenge_response key b = do
    b₁ ← init h (u32 (minimum_header_size + c.hmac_size)) b
    b₂ ← write_header challenge_response b₁
    write_hmac key minimum_header_size b₂

  unfoldable pub write_disconnect : List ℕ → Buffer → Result Buffer
  unfolding write_header write_hmac
  write_disconnect key b = do
    b₁ ← init h (u32 (minimum_header_size + c.hmac_size)) b
    b₂ ← write_header disconnect b₁
    write_hmac key minimum_header_size b₂

  unfoldable pub write_connection_accepted : ℕ → List ℕ → Buffer → Result Buffer
  unfolding write_header write_hmac
  write_connection_accepted client_id key b = do
    b₁ ← init h (u32 (connection_accepted_packet_size + c.hmac_size)) b
    b₂ ← write_header connection_accepted b₁
    b₃ ← write_integer h client_id b₂
    write_hmac key connection_accepted_packet_size b₃

  unfoldable pub read_connection_accepted : Buffer → Result (ℕ × Buffer)
  read_connection_accepted b = read_integer h b

  unfoldable pub write_connection_data : ConnectionDataPacket → List ℕ → Buffer → Result Buffer
  unfolding write_header write_hmac
  write_connection_data p key b = do
    b₁ ← init h (u32 (connection_data_packet_size + p.game_data_size + c.hmac_size)) b
    b₂ ← write_header connection_data b₁
    b₃ ← write_short h p.sequence b₂
    b₄ ← write_integer h p.game_data_size b₃
    b₅ ← write_buffer p.game_data p.game_data_size b₄
    write_hmac key (u32 (connection_data_packet_size + p.game_data_size)) b₅

  unfoldable pub read_connection_data : Buffer → Result (ConnectionDataPacket × Buffer)
  read_connection_data b = do
    (sequence, b₁) ← read_short h b
    (size, b₂) ← read_integer h b₁
    (game_data, b₃) ← read_buffer (h.fresh size) size b₂
    ok (record { sequence = sequence; game_data_size = size; game_data = game_data }, b₃)

pub protocol_id-lt : protocol_id < 2 ^ 32
unfolding protocol_id dec_lt
protocol_id-lt = omega arith
