-- ===== src/Client/Listen.antt =====
-- `Client::Listen`: one datagram is received, identified and handled, and the timeout is checked.
use game_network.Base.{
  ℕ, ◌-◌, ◌*◌, ◌^◌, Bool, true, false, ◌&&◌, ◌||◌, if◌then◌else◌, ltb, leb, List, [], Option, ok,
}
use game_network.Base.Int.{ℤ, pos, negsuc, ℤ_leb}
use game_network.Base.Methods.{◌>>=◌, ◌>>◌, lift, modify, get}
use game_network.Platform.{Host, Crypto, KeyExchange}
use game_network.Address.{Address}
use game_network.Socket.{receive_into}
use game_network.Buffer.{Buffer, to_int}
use game_network.Crc.{init_table}
use game_network.Packet.{
  PacketType, invalid_packet, challenge, connection_accepted, connection_data, disconnect,
  ConnectionDataPacket, verify_packet_hmac, verify_packet_crc, read_public_key,
  read_connection_accepted, read_connection_data, sequence_greater_than,
}
use game_network.Client.{
  Client, C, is_disconnected, is_sending_request, is_sending_challenge_response, is_connected,
  handle_challenge, handle_accepted, send_disconnect,
}
use game_network.Client

-- What `Listen` returns, and what it stores at `o_gameData`.
abbrev pub Heard : Type 0
Heard = ℤ × List ℕ

abbrev pub nothing_heard : Heard
nothing_heard = (pos 0, [])

-- `5s`, of a clock that counts nanoseconds.
abbrev pub timeout : ℕ
timeout = 5 * 10 ^ 9

abbrev pub is_valid_type : PacketType → Bool
is_valid_type invalid_packet = false
is_valid_type _ = true

-- `m_lastReceivedPacket = clock::now()`, for a packet that is valid.
abbrev pub note_received : ℕ → PacketType → Client → Client
note_received now t s = if is_valid_type t then record s { last_received_packet = now } else s

-- `if (static_cast<int>(p_size) >= packetInfo.gameDataSize)`
abbrev pub stored_data : ℕ → ConnectionDataPacket → Heard
stored_data p_size p =
    if leb p.game_data_size p_size then (to_int p.game_data_size, p.game_data) else (negsuc 0, [])

-- A packet with data counts where its number is newer than the last one's.
unfoldable pub accept_data : ℕ → ConnectionDataPacket → C Heard
accept_data p_size p s =
    if sequence_greater_than p.sequence s.ack
    then (record s { ack = p.sequence }, ok (stored_data p_size p))
    else (s, ok nothing_heard)

module _ (h : Host) (c : Crypto) (x : KeyExchange) where
  -- By the checksum before a key is agreed on, and by the signature from then on. The table stays
  -- filled also where the check throws behind `InitTable`.
  unfoldable pub check_crc : Buffer → C (PacketType × Buffer)
  check_crc b = do
    modify (λ s. record s { statics = if ℤ_leb b.size 0 then s.statics else init_table s.statics })
    statics ← get (λ s. s.statics)
    (t, b', statics') ← lift (verify_packet_crc h c statics b)
    modify (λ s. record s { statics = statics' })
    lift (ok (t, b'))

  unfoldable pub identify : Buffer → C (PacketType × Buffer)
  unfolding check_crc
  identify b s =
      if is_disconnected s.state || is_sending_request s.state
      then check_crc b s
      else (s, verify_packet_hmac h c s.shared_key b)

  -- What stands behind the `switch`. The time is read once more.
  unfoldable pub check_timeout : ℕ → C Heard
  check_timeout later s =
      if s.active_timeout && is_connected s.state && ltb timeout (later - s.last_received_packet)
      then (do send_disconnect h c x; lift (ok nothing_heard)) s
      else (s, ok nothing_heard)

  unfoldable pub hear_challenge : ℕ → Buffer → C Heard
  unfolding check_timeout handle_challenge
  hear_challenge later b s =
      if is_sending_request s.state
      then (do
        (key, b') ← lift (read_public_key h c b)
        modify (handle_challenge h c x key)
        check_timeout later)
          s
      else check_timeout later s

  unfoldable pub hear_accepted : ℕ → Buffer → C Heard
  unfolding check_timeout handle_accepted
  hear_accepted later b s =
      if is_sending_challenge_response s.state
      then (do
        (id, b') ← lift (read_connection_accepted h c b)
        modify (handle_accepted h c x id)
        check_timeout later)
          s
      else check_timeout later s

  unfoldable pub hear_disconnect : ℕ → C Heard
  unfolding check_timeout
  hear_disconnect later s =
      check_timeout later (if is_disconnected s.state then s else Client.disconnect s)

  -- The case of CONNECTION_DATA returns where the client is connected, and falls through to
  -- DISCONNECT where it is not.
  unfoldable pub hear_data : ℕ → ℕ → Buffer → C Heard
  unfolding hear_disconnect accept_data
  hear_data later p_size b s =
      if is_connected s.state
      then (do (p, b') ← lift (read_connection_data h c b); accept_data p_size p) s
      else hear_disconnect later s

  -- The `switch`.
  unfoldable pub dispatch : ℕ → ℕ → PacketType → Buffer → C Heard
  unfolding hear_challenge hear_accepted hear_data hear_disconnect
  dispatch later p_size challenge b = hear_challenge later b
  dispatch later p_size connection_accepted b = hear_accepted later b
  dispatch later p_size connection_data b = hear_data later p_size b
  dispatch later p_size disconnect b = hear_disconnect later
  dispatch later p_size t b = check_timeout later

  -- `Receive` stores whom the datagram is from in `m_serverAddress`.
  unfoldable pub listen : ℕ → ℕ → ℕ → Option (Address × List ℕ) → C Heard
  unfolding identify dispatch
  listen now later p_size datagram s =
      let sender = (receive_into h s.server_address datagram).0 in
      (do
        (t, b) ← identify (receive_into h s.server_address datagram).1
        modify (note_received now t)
        dispatch later p_size t b)
        (record s { server_address = sender })
