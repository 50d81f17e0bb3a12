-- ===== src/Client/Joining.antt =====
-- The client's part in the handshake, step by step.
use game_network.Base.{
  ℕ, ◌+◌, ◌/◌, ◌^◌, ◌<◌, ◌≡◌, refl, arith, true, false, ◌||◌, List, [], ◌∷◌, ◌++◌, some, take, ok,
  Bool-cases, inl, inr, ◌≤◌, length-append, ◌-◌, ◌&&◌, ltb,
}
use game_network.Platform.{Host, Crypto, KeyExchange, KeySizes}
use game_network.Address.{Address}
use game_network.Buffer.{to_int}
use game_network.Crc.{Statics, init_table}
use game_network.Crc.Table
use game_network.Crc.Table.{init_table-IsFilled}
use game_network.Base.Bytes.{be_bytes, length-be_bytes}
use game_network.Packet.{connection_request, challenge, challenge_response, connection_accepted}
use game_network.Packet.Keys
use game_network.Packet.Header.{header, length-header}
use game_network.Packet.Signed.{signed, length-signed}
use game_network.Packet.Control.{
  write_challenge_response-sent, accepted_text, verify-accepted, read-accepted,
}
use game_network.Socket.Wire.{slack_of, receive_into-cursor, load-written}
use game_network.Client.{
  Client, ClientState, sending_request, sending_challenge_response, connected, is_disconnected,
  is_sending_request, is_sending_challenge_response, is_connected, broadcast_address, generate_keys,
  connect, send_request, send, respond_challenge, send_response, handle_challenge, handle_accepted,
}
use game_network.Client.Listen.{
  nothing_heard, timeout, listen, identify, check_crc, dispatch, hear_challenge, hear_accepted,
  check_timeout,
}

not_disconnected :
    (t : ClientState)
    → is_sending_request t ≡ true
    → is_disconnected t || is_sending_request t ≡ true
not_disconnected t e = ground arith

sending_request-ne : (t : ClientState) → is_sending_request t ≡ true → is_connected t ≡ false
sending_request-ne t e = ground arith

pub responding-ne :
    (t : ClientState)
    → is_sending_challenge_response t ≡ true
    → is_disconnected t || is_sending_request t ≡ false
responding-ne t e = ground arith

module _ (h : Host) (c : Crypto) (x : KeyExchange) where
  pub check_timeout_idle :
      (later : ℕ) (s : Client)
      → is_connected s.state ≡ false
      → check_timeout h c x later s ≡ (s, ok nothing_heard)
  unfolding check_timeout
  check_timeout_idle later s e = elim (Bool-cases s.active_timeout) [
    | inl on ↦ rw (on, e)
    | inr off ↦ rw off
  ]

  -- The timeout is not used, or has not run out.
  pub check_timeout_waits :
      (later : ℕ) (s : Client)
      → s.active_timeout && ltb timeout (later - s.last_received_packet) ≡ false
      → check_timeout h c x later s ≡ (s, ok nothing_heard)
  unfolding check_timeout
  check_timeout_waits later s e = elim (Bool-cases s.active_timeout) [
    | inl active ↦
        let in_time : ltb timeout (later - s.last_received_packet) ≡ false = ground arith in
        elim (Bool-cases (is_connected s.state)) [
          | inl there ↦ rw (active, there, in_time) refl
          | inr away ↦ rw (active, away) refl
        ]
    | inr off ↦ rw off refl
  ]

  pub check_timeout_recent :
      (later : ℕ) (s : Client)
      → later ≤ s.last_received_packet + timeout
      → check_timeout h c x later s ≡ (s, ok nothing_heard)
  unfolding check_timeout
  check_timeout_recent later s e = ground arith

module _ (h : Host) (c : Crypto) (x : KeyExchange) (sizes : KeySizes c x) where
  module _ (s : Client) (v : Table.IsValid s.statics) where
    abbrev pub request_wire : List ℕ
    request_wire = Keys.wire_of h c x sizes s.entropy s.statics v connection_request

    -- The client that has sent its request.
    abbrev pub requested : Client
    requested = record (generate_keys h c x s) {
      statics = init_table s.statics;
      state = sending_request;
      sent = s.sent ++ (broadcast_address, request_wire) ∷ [];
    }

    pub connect-requested : is_disconnected s.state ≡ true → connect h c x s ≡ (requested, ok tt)
    unfolding connect send_request send generate_keys
    connect-requested e =
        rw
          (
            e,
            Keys.write_connection_request-sent h c x sizes s.entropy s.statics v,
            Keys.packet_of-Holds h c x sizes s.entropy s.statics v connection_request,
          )
          refl

  module _ (now later p_size : ℕ) (from : Address) (s : Client) where
    -- The client that has got a challenge with the key `n`.
    abbrev pub challenged : ℕ → Client
    challenged n = record s {
      server_address = from;
      statics = init_table (init_table s.statics);
      last_received_packet = now;
      shared_key = x.sha256 (take (c.public_key_size / 8) (x.shared (x.public_of n) s.private_key));
      responding = s.responding + 1;
    }

    pub listen-challenged :
        (n : ℕ) (r : Statics) (w : Table.IsValid r)
        → Table.IsValid s.statics
        → is_sending_request s.state ≡ true
        → listen h c x now later p_size (some (from, Keys.wire_of h c x sizes n r w challenge)) s
          ≡ (challenged n, ok nothing_heard)
    unfolding listen identify check_crc dispatch hear_challenge handle_challenge
    listen-challenged n r w v e =
        let wire = Keys.wire_of h c x sizes n r w challenge in
        let slack = slack_of h wire in
        let filled = init_table s.statics in
        let filled_valid = (init_table-IsFilled s.statics v).0 in
        rw
          (
            receive_into-cursor h s.server_address from wire
                (Keys.wire_of-fits h c x sizes n r w challenge),
            not_disconnected s.state e,
            Keys.wire_of-ne h c x sizes n r w challenge,
            Keys.verify-wire_of h c x sizes n r w filled filled_valid slack challenge tt
                Keys.challenge_byte,
            e,
            (Keys.read-wire_of h c x sizes n r w filled filled_valid slack challenge tt
                Keys.challenge_byte).1,
            check_timeout_idle h c x later (challenged n) (sending_request-ne s.state e),
          )
          refl

  -- The client that has answered its challenge.
  abbrev pub responded : Client → Client
  responded s = record s {
    state = sending_challenge_response;
    sent = s.sent ++ (s.server_address, signed h c s.shared_key (header challenge_response)) ∷ [];
  }

  pub respond_challenge-responded : (s : Client) → respond_challenge h c x s ≡ (responded s, ok tt)
  unfolding respond_challenge send_response send
  respond_challenge-responded s =
      rw
        (
          write_challenge_response-sent h c s.shared_key (omega (arith, sizes.small)),
          load-written (signed h c s.shared_key (header challenge_response)) (
              omega (
                arith,
                sizes.small,
                length-signed h c s.shared_key (header challenge_response),
                length-header challenge_response,
              )),
        )
        refl

  module _ (now later p_size : ℕ) (from : Address) (s : Client) where
    -- The client that has been accepted with an index.
    abbrev pub accepted : ℕ → Client
    accepted id = record s {
      server_address = from;
      last_received_packet = now;
      index = to_int id;
      state = connected;
    }

    pub listen-accepted :
        (id : ℕ)
        → id < 2 ^ 32
        → is_sending_challenge_response s.state ≡ true
        → later ≤ now + timeout
        → listen h c x now later p_size
            (some (from, signed h c s.shared_key (accepted_text h c id)))
            s
          ≡ (accepted id, ok nothing_heard)
    unfolding listen identify dispatch hear_accepted handle_accepted
    listen-accepted id lt e soon =
        let wire = signed h c s.shared_key (accepted_text h c id) in
        let slack = slack_of h wire in
        rw
          (
            receive_into-cursor h s.server_address from wire (
                omega (
                  arith,
                  sizes.small,
                  length-signed h c s.shared_key (accepted_text h c id),
                  length-append (header connection_accepted) (be_bytes 4 id),
                  length-header connection_accepted,
                  length-be_bytes 4 id,
                )),
            responding-ne s.state e,
            verify-accepted h c id s.shared_key slack (omega (arith, sizes.small)),
            e,
            (read-accepted h c id s.shared_key slack lt).1,
            check_timeout_recent h c x later (accepted id) soon,
          )
          refl
