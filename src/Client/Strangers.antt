-- ===== src/Client/Strangers.antt =====
-- Datagrams that the client does not expect: too short or too long ones, ones without its signature,
-- and game data before it is connected.
use game_network.Base.{
  arith, ℕ, ◌+◌, ◌-◌, ◌^◌, ◌≤◌, ◌<◌, ◌≡◌, refl, true, false, Bool-cases, inl, inr, ◌&&◌, ◌||◌, ltb,
  List, [], ◌++◌, some, length, ok, throws, out_of_range,
}
use game_network.Base.Int.{pos, ℤ_leb}
use game_network.Platform.{Host, Crypto, KeyExchange}
use game_network.Address.{Address}
use game_network.Buffer.{Buffer}
use game_network.Buffer.Cursor.{cursor}
use game_network.Crc.{init_table}
use game_network.Packet.{invalid_packet, verify_packet_hmac}
use game_network.Packet.Exchange.{verify_packet_crc-short}
use game_network.Packet.Data
use game_network.Packet.Data.{IsSendable}
use game_network.Packet.{ConnectionDataPacket}
use game_network.Socket.Wire.{slack_of, receive_into-cursor, receive_into-lost}
use game_network.Client.{
  Client, ClientState, disconnect, is_disconnected, is_sending_request,
  is_sending_challenge_response, is_connected,
}
use game_network.Client.Listen.{
  check_timeout, nothing_heard, timeout, listen, identify, check_crc, dispatch, hear_data,
  hear_disconnect,
}
use game_network.Client.Data.{noted}
use game_network.Client.Leaving.{send_disconnect-leaving}
use game_network.Client.Joining.{responding-ne, check_timeout_idle, check_timeout_waits}

module _ (h : Host) (c : Crypto) (x : KeyExchange) (now later p_size : ℕ) (from : Address)
    (s : Client) where
  -- Before a key is agreed on, a datagram of one to three bytes, from whomever, makes Listen throw.
  pub listen_short-throws :
      (bytes : List ℕ)
      → is_disconnected s.state || is_sending_request s.state ≡ true
      → 0 < length bytes
      → length bytes < 4
      → (listen h c x now later p_size (some (from, bytes)) s).1 ≡ throws out_of_range
  unfolding listen identify check_crc
  listen_short-throws bytes e some_bytes few =
      let long : ℤ_leb (pos (0 + length bytes)) 0 ≡ false = ground arith in
      rw
        (
          receive_into-cursor h s.server_address from bytes (omega arith),
          e,
          long,
          verify_packet_crc-short h c (init_table s.statics) (bytes ++ slack_of h bytes)
              (0 + length bytes) (omega (arith, some_bytes)) (omega (arith, few)),
        )
        refl

  open_key :
      (t : ClientState) → is_connected t ≡ true → is_disconnected t || is_sending_request t ≡ false
  open_key t e = ground arith

  -- A datagram of at most 1024 bytes that a connected client rejects, as it does not end in the
  -- signature, changes whom the client sends to: afterwards it is the datagram's sender. The client
  -- does not use its timeout, or has heard a packet in time.
  pub listen_rejected-redirects :
      (wire : List ℕ) (b : Buffer)
      → is_connected s.state ≡ true
      → s.active_timeout && ltb timeout (later - s.last_received_packet) ≡ false
      → length wire ≤ 1024
      → verify_packet_hmac h c s.shared_key (cursor [] wire (slack_of h wire))
        ≡ ok (invalid_packet, b)
      → listen h c x now later p_size (some (from, wire)) s
        ≡ (record s { server_address = from }, ok nothing_heard)
  unfolding listen identify dispatch
  listen_rejected-redirects wire b e recent fits rejected =
      rw
        (
          receive_into-cursor h s.server_address from wire fits,
          open_key s.state e,
          rejected,
          check_timeout_waits h c x later (record s { server_address = from }) recent,
        )
        refl

  -- A connected client hears nothing of a datagram of more than 1024 bytes: what is left is the check
  -- of the time.
  pub listen_lost :
      (wire : List ℕ)
      → is_connected s.state ≡ true
      → 1024 < length wire
      → listen h c x now later p_size (some (from, wire)) s ≡ check_timeout h c x later s
  unfolding listen identify dispatch verify_packet_hmac
  listen_lost wire e over =
      rw (receive_into-lost h s.server_address from wire over, open_key s.state e) refl

  -- The check of the time stores nothing and keeps the number of the last packet.
  pub check_timeout-ack :
      c.hmac_size < 2 ^ 31 - 5
      → is_connected s.state ≡ true
      → ((check_timeout h c x later s).1 ≡ ok nothing_heard)
        × ((check_timeout h c x later s).0.ack ≡ s.ack)
  unfolding check_timeout disconnect
  check_timeout-ack small e =
      elim (Bool-cases (
        s.active_timeout && is_connected s.state && ltb timeout (later - s.last_received_packet))) [
          | inl f ↦ rw (f, send_disconnect-leaving h c x s small e) (refl, refl)
          | inr f ↦ rw f (refl, refl)
        ]

  module _ (p : ConnectionDataPacket) (v : IsSendable p)
      (small : p.game_data_size + c.hmac_size < 2 ^ 31 - 11) where
    not_connected :
        (t : ClientState) → is_sending_challenge_response t ≡ true → is_connected t ≡ false
    not_connected t e = ground arith

    not_disconnected :
        (t : ClientState) → is_sending_challenge_response t ≡ true → is_disconnected t ≡ false
    not_disconnected t e = ground arith

    -- Game data of the server's, in a packet that fits the client's buffer, that arrive while the client waits to be accepted disconnect it: they
    -- are dropped, and so are the key and the server's address.
    pub early_data-disconnects :
        is_sending_challenge_response s.state ≡ true
        → p.game_data_size + c.hmac_size + 11 ≤ 1024
        → listen h c x now later p_size (some (from, Data.data_wire h c p v small s.shared_key)) s
          ≡ (disconnect (noted h c x p v small now from s), ok nothing_heard)
    unfolding listen identify dispatch hear_data hear_disconnect disconnect
    early_data-disconnects e fits =
        let wire = Data.data_wire h c p v small s.shared_key in
        let slack = slack_of h wire in
        rw
          (
            receive_into-cursor h s.server_address from wire
                (omega (arith, Data.length-data_wire h c p v small s.shared_key)),
            responding-ne s.state e,
            Data.verify-data_wire h c p v small s.shared_key slack,
            not_connected s.state e,
            not_disconnected s.state e,
          )
          (check_timeout_idle h c x later (disconnect (noted h c x p v small now from s)) refl)
