-- ===== src/Client/Hearing.antt =====
-- What `Client::Listen` can do to a client: which changes it is made of, for a predicate before it
-- and a predicate behind it.
use game_network.Base.{ℕ, true, ◌||◌, List, Option, if◌then◌else◌, ◌≡◌, Bool-cases, inl, inr}
use game_network.Base.Int.{ℤ_leb}
use game_network.Base.Methods.{Leads, continue-Leads}
use game_network.Platform.{Host, Crypto, KeyExchange}
use game_network.Address.{Address}
use game_network.Socket.{receive_into}
use game_network.Buffer.{Buffer}
use game_network.Crc.{Statics, init_table}
use game_network.Packet.{
  PacketType, invalid_packet, connection_request, challenge, challenge_response,
  connection_accepted, connection_data, disconnect, unlisted, ConnectionDataPacket,
  verify_packet_crc, read_public_key, read_connection_accepted, read_connection_data,
  sequence_greater_than,
}
use game_network.Client.{
  Client, is_disconnected, is_sending_request, is_sending_challenge_response, is_connected,
  handle_challenge, handle_accepted,
}
use game_network.Client.Listen.{
  check_crc, identify, note_received, is_valid_type, hear_challenge, hear_accepted, hear_disconnect,
  hear_data, accept_data, dispatch, listen,
}
use game_network.Client.Closed.{IsClosed, check_timeout-Leads, hear_disconnect-Leads}

-- `P` is kept by what precedes the `switch`, and what a case does leads from `P` to `Q`.
pub record Carries (h : Host) (c : Crypto) (x : KeyExchange) (P Q : Client → Type 0) : Type 0 where
  pub closed : IsClosed Q
  pub pass : (s : Client) → P s → Q s
  pub under_statics : (s : Client) (r : Statics) → P s → P (record s { statics = r })
  pub under_sender : (s : Client) (a : Address) → P s → P (record s { server_address = a })
  pub under_received : (s : Client) (n : ℕ) → P s → P (record s { last_received_packet = n })
  pub under_ack : (s : Client) (n : ℕ) → P s → Q (record s { ack = n })
  pub under_challenge :
      (s : Client) (key : List ℕ)
      → is_sending_request s.state ≡ true
      → P s
      → Q (handle_challenge h c x key s)
  pub under_accepted :
      (s : Client) (id : ℕ)
      → is_sending_challenge_response s.state ≡ true
      → P s
      → Q (handle_accepted h c x id s)

module _ (h : Host) (c : Crypto) (x : KeyExchange) (P Q : Client → Type 0)
    (carries : Carries h c x P Q) where
  check_crc-Leads : (b : Buffer) → Leads P P (check_crc h c x b)
  unfolding check_crc
  check_crc-Leads b s p =
      let filled = if ℤ_leb b.size 0 then s.statics else init_table s.statics in
      continue-Leads P P (verify_packet_crc h c filled b) _ (λ t q. q)
        (λ found t q. carries.under_statics t found.2 q) (carries.under_statics s filled p)

  identify-Leads : (b : Buffer) → Leads P P (identify h c x b)
  unfolding identify
  identify-Leads b s p = elim (Bool-cases (is_disconnected s.state || is_sending_request s.state)) [
    | inl early ↦ rw early (check_crc-Leads b s p)
    | inr late ↦ rw late p
  ]

  hear_challenge-Leads : (later : ℕ) (b : Buffer) → Leads P Q (hear_challenge h c x later b)
  unfolding hear_challenge
  hear_challenge-Leads later b s p = elim (Bool-cases (is_sending_request s.state)) [
    | inl e ↦ rw e (
        continue-Leads (λ t. P t × (is_sending_request t.state ≡ true)) Q (read_public_key h c b) _
          (λ t q. carries.pass t q.0)
          (λ found t q.
            check_timeout-Leads h c x Q carries.closed later _
              (carries.under_challenge t found.0 q.1 q.0))
          (p, e))
    | inr e ↦ rw e (check_timeout-Leads h c x Q carries.closed later s (carries.pass s p))
  ]

  hear_accepted-Leads : (later : ℕ) (b : Buffer) → Leads P Q (hear_accepted h c x later b)
  unfolding hear_accepted
  hear_accepted-Leads later b s p = elim (Bool-cases (is_sending_challenge_response s.state)) [
    | inl e ↦ rw e (
        continue-Leads (λ t. P t × (is_sending_challenge_response t.state ≡ true)) Q
          (read_connection_accepted h c b) _ (λ t q. carries.pass t q.0)
          (λ found t q.
            check_timeout-Leads h c x Q carries.closed later _
              (carries.under_accepted t found.0 q.1 q.0))
          (p, e))
    | inr e ↦ rw e (check_timeout-Leads h c x Q carries.closed later s (carries.pass s p))
  ]

  accept_data-Leads : (p_size : ℕ) (d : ConnectionDataPacket) → Leads P Q (accept_data p_size d)
  unfolding accept_data
  accept_data-Leads p_size d s p = elim (Bool-cases (sequence_greater_than d.sequence s.ack)) [
    | inl e ↦ rw e (carries.under_ack s d.sequence p)
    | inr e ↦ rw e (carries.pass s p)
  ]

  hear_disconnect_lem : (later : ℕ) → Leads P Q (hear_disconnect h c x later)
  hear_disconnect_lem later s p =
      hear_disconnect-Leads h c x Q carries.closed later s (carries.pass s p)

  hear_data-Leads : (later p_size : ℕ) (b : Buffer) → Leads P Q (hear_data h c x later p_size b)
  unfolding hear_data
  hear_data-Leads later p_size b s p = elim (Bool-cases (is_connected s.state)) [
    | inl e ↦ rw e (
        continue-Leads P Q (read_connection_data h c b) _ carries.pass
          (λ found. accept_data-Leads p_size found.0) p)
    | inr e ↦ rw e (hear_disconnect_lem later s p)
  ]

  dispatch-Leads :
      (later p_size : ℕ) (t : PacketType) (b : Buffer) → Leads P Q (dispatch h c x later p_size t b)
  unfolding dispatch
  dispatch-Leads later p_size challenge b s p = hear_challenge-Leads later b s p
  dispatch-Leads later p_size connection_accepted b s p = hear_accepted-Leads later b s p
  dispatch-Leads later p_size connection_data b s p = hear_data-Leads later p_size b s p
  dispatch-Leads later p_size disconnect b s p = hear_disconnect_lem later s p
  dispatch-Leads later p_size invalid_packet b s p =
      check_timeout-Leads h c x Q carries.closed later s (carries.pass s p)
  dispatch-Leads later p_size connection_request b s p =
      check_timeout-Leads h c x Q carries.closed later s (carries.pass s p)
  dispatch-Leads later p_size challenge_response b s p =
      check_timeout-Leads h c x Q carries.closed later s (carries.pass s p)
  dispatch-Leads later p_size (unlisted n) b s p =
      check_timeout-Leads h c x Q carries.closed later s (carries.pass s p)

  noted : (now : ℕ) (t : PacketType) (s : Client) → P s → P (note_received now t s)
  noted now t s p = elim (Bool-cases (is_valid_type t)) [
    | inl e ↦ rw e (carries.under_received s now p)
    | inr e ↦ rw e p
  ]

  pub listen-Leads :
      (now later p_size : ℕ) (datagram : Option (Address × List ℕ))
      → Leads P Q (listen h c x now later p_size datagram)
  unfolding listen
  listen-Leads now later p_size datagram s p =
      let received = receive_into h s.server_address datagram in
      let from = record s { server_address = received.0 } in
      continue-Leads P Q (identify h c x received.1 from).1 _ carries.pass
        (λ found t q. dispatch-Leads later p_size found.0 found.1 _ (noted now found.0 t q))
        (identify-Leads received.1 from (carries.under_sender s received.0 p))
