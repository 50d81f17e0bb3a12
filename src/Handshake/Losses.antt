-- ===== src/Handshake/Losses.antt =====
-- Game data from a client to the server, and the server's data that a client drops.
use game_network.Base.{
  arith, ℕ, ◌+◌, ◌-◌, ◌%◌, ◌^◌, ◌≤◌, ◌<◌, ◌≡◌, refl, sym, Bool, true, false, List, ◌++◌, leb,
  length, ok, dec_lt,
}
use game_network.Base.Int.{pos}
use game_network.Base.Bytes.{le_bytes}
use game_network.Platform.{Host, Crypto, KeyExchange}
use game_network.Address.{Address}
use game_network.Packet.{sequence_greater_than}
use game_network.Client.{Client, is_connected}
use game_network.Client.{send_game_data as client_sends}
use game_network.Client.Listen.{accept_data, nothing_heard}
use game_network.Client.Listen.{listen as client_listen}
use game_network.Client.Data.{next_packet, next_packet-IsSendable}
use game_network.Client.Data as ClientData
use game_network.Server.{Server, connection_at, find_existing_connection_index}
use game_network.Server.Handlers.{send_game_data as server_sends}
use game_network.Server.Listen.{in_lobby}
use game_network.Server.Listen.{listen as server_listen}
use game_network.Client.Strangers.{listen_lost, check_timeout-ack}
use game_network.Packet.Data
use game_network.Server.Data as ServerData
use game_network.Handshake.{arriving}
use game_network.Handshake.Connects.{arriving-snoc}
use game_network.Handshake.Stream.{for_it, arriving-sending}

module _ (h : Host) (c : Crypto) (x : KeyExchange) (now p_size : ℕ) (ca sa : Address) (k : ℕ)
    (bytes : List ℕ) (small : length bytes + c.hmac_size < 2 ^ 31 - 11) (cl : Client) (sv : Server)
    (there : is_connected cl.state ≡ true)
    (same_key : (connection_at sv k).shared_key ≡ cl.shared_key) where
  -- Data that a connected client sends arrive at a server that is in the game and has the client as
  -- its connection `k`: Listen stores `k` and the data behind it, where the packet fits the server's
  -- buffer of 1024 bytes, and there is room for 15 bytes and a signature more than the data. The server stays as it is.
  pub data-arrives :
      (sends : Bool)
      → cl.server_address ≡ sa
      → in_lobby sv ≡ false
      → 0 < k
      → find_existing_connection_index ca sv ≡ pos k
      → length bytes + c.hmac_size + 11 ≤ 1024
      → length bytes + c.hmac_size + 15 ≤ p_size
      → let cl' = (client_sends h c x sends bytes (length bytes) cl).0 in
        server_listen h c x now p_size (arriving sa ca cl'.sent) sv
        ≡ (sv, ok (pos (length bytes), le_bytes 4 k ++ bytes))
  data-arrives sends to playing first known fits room =
      let wire = ClientData.next_wire h c x bytes small cl.sequence in
      let enough : leb (length bytes + c.hmac_size + 15) p_size ≡ true = ground arith in
      rw
        (
          ClientData.send_game_data-sending h c x bytes small sends cl there,
          to,
          arriving-snoc sa ca cl.sent sa (wire cl.shared_key) (for_it sa _),
          sym same_key,
          ServerData.listen-data h c x (next_packet cl.sequence bytes)
              (next_packet-IsSendable cl.sequence bytes) small now p_size ca sv k fits playing first
              known,
          enough,
        )
        refl

  -- A client whose last number is up to 32768 ahead of the connection's, as after a new connection
  -- of an old client, hears nothing of the data that the server sends next.
  pub data_lost :
      k < length sv.connections
      → (connection_at sv k).client_address ≡ ca
      → (connection_at sv k).sequence < cl.ack
      → cl.ack ≤ (connection_at sv k).sequence + 32768
      → cl.ack < 2 ^ 16
      → let sv' = (server_sends h c x now k bytes (length bytes) sv).0 in
        let (cl', heard) = client_listen h c x now now p_size (arriving ca sa sv'.sent) cl in
        (heard ≡ ok nothing_heard) × (cl'.ack ≡ cl.ack)
  unfolding accept_data sequence_greater_than
  data_lost low address behind near fits =
      let n = (connection_at sv k).sequence in
      let wire = ClientData.next_wire h c x bytes small n cl.shared_key in
      let old : sequence_greater_than ((n + 1) % 2 ^ 16) cl.ack ≡ false = ground arith in
      rw
        (
          ServerData.send_game_data-sending h c x now bytes small sv k low,
          arriving-sending h c x now p_size ca sa k bytes small cl sv address same_key,
        )
        (elim (dec_lt 1024 (length bytes + c.hmac_size + 11)) [
          | yes over ↦
              rw
                (listen_lost h c x now now p_size sa cl wire there (
                  omega (
                    arith,
                    over,
                    Data.length-data_wire h c (next_packet n bytes) (next_packet-IsSendable n bytes)
                        small cl.shared_key,
                  )))
                (check_timeout-ack h c x now now p_size sa cl (omega (arith, small)) there)
          | no fit ↦
              rw
                (
                  ClientData.listen-data h c x (next_packet n bytes)
                      (next_packet-IsSendable n bytes) small now now p_size sa cl
                      (omega (arith, fit)) there,
                  old,
                )
                (refl, refl)
        ])
