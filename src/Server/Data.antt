-- ===== src/Server/Data.antt =====
-- The server's part in the exchange of game data.
use game_network.Base.{
  arith, ℕ, ◌+◌, ◌-◌, ◌%◌, ◌^◌, ◌≤◌, ◌<◌, ◌≡◌, refl, ap, true, false, leb, List, [], ◌∷◌, ◌++◌,
  if◌then◌else◌, some, set, length, ok,
}
use game_network.Base.Int.{pos, negsuc, is_positive}
use game_network.Base.Bytes.{le_bytes}
use game_network.Platform.{Host, Crypto, KeyExchange}
use game_network.Address.{Address}
use game_network.Buffer.{to_int}
use game_network.Packet.{ConnectionDataPacket}
use game_network.Packet.Data
use game_network.Packet.Data.{IsSendable}
use game_network.Socket.Wire.{slack_of}
use game_network.Client.Data.{
  next_packet, next_packet-IsSendable, next_wire, load-next_wire, take_all,
}
use game_network.Server.{Server, find_existing_connection_index, connection_at, no_connection, send}
use game_network.Server.Handlers.{send_game_data}
use game_network.Server.Listen.{Heard, listen, identify, dispatch, hear_data, in_lobby}
use game_network.Server.Slots.{get_or-set_self}
use game_network.Server.Challenging.{listen_lem}

module _ (h : Host) (c : Crypto) (x : KeyExchange) (p : ConnectionDataPacket) (v : IsSendable p)
    (small : p.game_data_size + c.hmac_size < 2 ^ 31 - 11) where
  -- What is stored of a packet from the connection `k`: the number, and the data behind it.
  abbrev pub stored_from : ℕ → ℕ → Heard
  stored_from p_size k =
      if leb (p.game_data_size + c.hmac_size + 15) p_size
      then (pos p.game_data_size, le_bytes 4 k ++ p.game_data)
      else (negsuc 0, [])

  room :
      (p_size n : ℕ)
      → n ≡ 11 + p.game_data_size + c.hmac_size
      → leb (n % 2 ^ 32 + 4) p_size ≡ leb (p.game_data_size + c.hmac_size + 15) p_size
  room p_size n e = ap (λ m. leb m p_size) (omega arith)

  positive : to_int p.game_data_size ≡ pos p.game_data_size
  positive = ground arith

  hear_data-stored :
      (now p_size : ℕ) (from : Address) (s : Server) (k : ℕ) (key slack : List ℕ)
      → in_lobby s ≡ false
      → 0 < k
      → find_existing_connection_index from s ≡ pos k
      → hear_data h c x now p_size from (Data.checked h c p v small key slack) s
        ≡ (s, ok (stored_from p_size k))
  unfolding hear_data
  hear_data-stored now p_size from s k key slack playing first there =
      let later : is_positive (pos k) ≡ true = ground arith in
      rw
        (
          playing,
          Data.read-data_wire h c p v small key slack,
          there,
          later,
          room p_size _ (Data.length-rest h c p v small key),
          positive,
        )
        refl

  -- Game data from the client of the connection `k` are stored behind the number `k`, and the server
  -- stays as it is.
  pub listen-data :
      (now p_size : ℕ) (from : Address) (s : Server) (k : ℕ)
      → p.game_data_size + c.hmac_size + 11 ≤ 1024
      → in_lobby s ≡ false
      → 0 < k
      → find_existing_connection_index from s ≡ pos k
      → listen h c x now p_size
          (some (from, Data.data_wire h c p v small (connection_at s k).shared_key))
          s
        ≡ (s, ok (stored_from p_size k))
  unfolding identify dispatch
  listen-data now p_size from s k fits playing first there =
      let key = (connection_at s k).shared_key in
      let wire = Data.data_wire h c p v small key in
      let later : is_positive (pos k) ≡ true = ground arith in
      listen_lem h c x now p_size from wire s s
        (omega (arith, Data.length-data_wire h c p v small key))
        (rw (there, later, Data.verify-data_wire h c p v small key (slack_of h wire))
          (hear_data-stored now p_size from s k key (slack_of h wire) playing first there))

module _ (h : Host) (c : Crypto) (x : KeyExchange) (now : ℕ) (bytes : List ℕ)
    (small : length bytes + c.hmac_size < 2 ^ 31 - 11) where
  -- The server that has sent data to the client of the connection `k`.
  abbrev pub sending : ℕ → Server → Server
  sending k s = record s {
    connections =
        set s.connections k
          (record (connection_at s k) { sequence = ((connection_at s k).sequence + 1) % 2 ^ 16 });
    sent =
        s.sent
        ++ (
          (connection_at s k).client_address,
          next_wire h c x bytes small (connection_at s k).sequence (connection_at s k).shared_key,
        )
          ∷ [];
  }

  pub send_game_data-sending :
      (s : Server) (k : ℕ)
      → k < length s.connections
      → send_game_data h c x now k bytes (length bytes) s ≡ (sending k s, ok tt)
  unfolding send_game_data send
  send_game_data-sending s k low =
      let e = connection_at s k in
      rw
        (
          get_or-set_self s.connections k (record e { sequence = (e.sequence + 1) % 2 ^ 16 })
              (no_connection 0) low,
          take_all bytes,
          Data.write_connection_data-sent h c (next_packet e.sequence bytes)
              (next_packet-IsSendable e.sequence bytes) small e.shared_key,
          load-next_wire h c x bytes small e.sequence e.shared_key,
        )
        refl
