-- ===== src/Client/Data.antt =====
-- The client's part in the exchange of game data: what `Client::Listen` makes of a packet with data,
-- what it makes of the same packet again, and what `SendGameData` sends.
use game_network.Base.{
  arith, ℕ, ◌+◌, ◌-◌, ◌%◌, ◌^◌, ◌≤◌, ◌<◌, ◌≡◌, refl, ap, Bool, true, false, ◌||◌, leb, List, [],
  ◌∷◌, ◌++◌, some, take, length, ok, Bool-cases, inl, inr, if◌then◌else◌,
}
use game_network.Base.Int.{pos, negsuc, to_unsigned}
use game_network.Platform.{Host, Crypto, KeyExchange}
use game_network.Address.{Address}
use game_network.Buffer.{to_int, load}
use game_network.Buffer.Cursor.{cursor}
use game_network.Packet.{ConnectionDataPacket, sequence_greater_than}
use game_network.Packet.Data
use game_network.Packet.Data.{IsSendable}
use game_network.Socket.Wire.{slack_of, receive_into-cursor, load-written}
use game_network.Client.{
  Client, ClientState, is_connected, is_disconnected, is_sending_request, send_game_data,
  send_own_data, send,
}
use game_network.Client.Listen.{nothing_heard, accept_data, listen, identify, dispatch, hear_data}

connected-ne :
    (t : ClientState) → is_connected t ≡ true → is_disconnected t || is_sending_request t ≡ false
connected-ne t e = ground arith

own_not_newer : (n : ℕ) → sequence_greater_than n n ≡ false
unfolding sequence_greater_than
own_not_newer n = ground arith

module _ (h : Host) (c : Crypto) (x : KeyExchange) (p : ConnectionDataPacket) (v : IsSendable p)
    (small : p.game_data_size + c.hmac_size < 2 ^ 31 - 11) where
  -- The client that has got a valid packet.
  abbrev pub noted : ℕ → Address → Client → Client
  noted now from s = record s { server_address = from; last_received_packet = now }

  pub listen-data :
      (now later p_size : ℕ) (from : Address) (s : Client)
      → p.game_data_size + c.hmac_size + 11 ≤ 1024
      → is_connected s.state ≡ true
      → listen h c x now later p_size (some (from, Data.data_wire h c p v small s.shared_key)) s
        ≡ accept_data p_size p (noted now from s)
  unfolding listen identify dispatch hear_data
  listen-data now later p_size from s fits e =
      let wire = Data.data_wire h c p v small s.shared_key in
      let slack = slack_of h wire in
      rw
        (
          receive_into-cursor h s.server_address from wire
              (omega (arith, Data.length-data_wire h c p v small s.shared_key)),
          connected-ne s.state e,
          Data.verify-data_wire h c p v small s.shared_key slack,
          e,
          Data.read-data_wire h c p v small s.shared_key slack,
        )
        refl

  positive : to_int p.game_data_size ≡ pos p.game_data_size
  positive = ground arith

  module _ (now later p_size : ℕ) (from : Address) (s : Client)
      (fits : p.game_data_size + c.hmac_size + 11 ≤ 1024)
      (there : is_connected s.state ≡ true) where
    -- The answer to a packet with data that fits the client's buffer, in its three cases.
    pub listen_data-answer :
        let (s', r) =
          listen h c x now later p_size
            (some (from, Data.data_wire h c p v small s.shared_key))
            s in
        r
          ≡ ok (
              if sequence_greater_than p.sequence s.ack
              then (if leb p.game_data_size p_size
                  then (pos p.game_data_size, p.game_data)
                  else (negsuc 0, []))
              else nothing_heard)
        × (s'.ack ≡ (if sequence_greater_than p.sequence s.ack then p.sequence else s.ack))
    unfolding accept_data
    listen_data-answer =
        rw (listen-data now later p_size from s fits there)
          (elim (Bool-cases (sequence_greater_than p.sequence s.ack)) [
            | inl new ↦ rw (new, positive) (refl, refl)
            | inr old ↦ rw old (refl, refl)
          ])

-- The packet under the next number.
abbrev pub next_packet : ℕ → List ℕ → ConnectionDataPacket
next_packet sequence bytes = record {
  sequence = (sequence + 1) % 2 ^ 16;
  game_data_size = length bytes;
  game_data = bytes;
}

pub next_packet-IsSendable : (n : ℕ) (bytes : List ℕ) → IsSendable (next_packet n bytes)
next_packet-IsSendable n bytes = record { sequence_fits = omega arith; has_size = refl }

pub take_all : (bytes : List ℕ) → take (length bytes) bytes ≡ bytes
take_all [] = refl
take_all (b ∷ bytes) = ap (λ bs. b ∷ bs) (take_all bytes)

module _ (h : Host) (c : Crypto) (x : KeyExchange) (bytes : List ℕ)
    (small : length bytes + c.hmac_size < 2 ^ 31 - 11) where
  -- The packet with `bytes` under the number behind `n`.
  abbrev pub next_wire : ℕ → List ℕ → List ℕ
  next_wire n key =
      Data.data_wire h c (next_packet n bytes) (next_packet-IsSendable n bytes) small key

  pub load-next_wire :
      (n : ℕ) (key : List ℕ)
      → load 0
          (to_unsigned (cursor (next_wire n key) [] []).size)
          (cursor (next_wire n key) [] []).memory
        ≡ some (next_wire n key)
  load-next_wire n key = load-written (next_wire n key) (
      omega (
        arith,
        small,
        Data.length-data_wire h c (next_packet n bytes) (next_packet-IsSendable n bytes) small key,
      ))

  -- The client that has sent data.
  abbrev pub sending : Client → Client
  sending s = record s {
    sequence = (s.sequence + 1) % 2 ^ 16;
    sent = s.sent ++ (s.server_address, next_wire s.sequence s.shared_key) ∷ [];
  }

  pub send_game_data-sending :
      (sends : Bool) (s : Client)
      → is_connected s.state ≡ true
      → send_game_data h c x sends bytes (length bytes) s ≡ (sending s, ok sends)
  unfolding send_game_data send_own_data send
  send_game_data-sending sends s e =
      rw
        (
          e,
          take_all bytes,
          Data.write_connection_data-sent h c (next_packet s.sequence bytes)
              (next_packet-IsSendable s.sequence bytes) small s.shared_key,
          load-next_wire s.sequence s.shared_key,
        )
        refl
