-- ===== src/Handshake/Stream.antt =====
-- Game data between a client and a server that have a connection: SendGameData and Listen of
-- Client.cpp, and one round of PropagateGameData and Listen of Server.cpp.
use game_network.Base.{
  arith, ℕ, ◌+◌, ◌-◌, ◌%◌, ◌^◌, ◌≤◌, ◌<◌, ◌≡◌, refl, sym, ap, ◌∙◌, Bool, true, ◌||◌, List, [], ◌∷◌,
  leb, some, length, length-set, Result, ok,
}
use mathlib.Core.List.{map}
use game_network.Base.Int.{pos}
use game_network.Platform.{Host, Crypto, KeyExchange}
use game_network.Address.{Address, same_address}
use game_network.Address.Octets.{same_address_iff}
use game_network.Buffer.{to_int}
use game_network.Packet.{sequence_greater_than}
use game_network.Packet.Sequence.{sequence_greater_than-window}
use game_network.Client.{Client, is_connected}
use game_network.Client.Listen.{Heard, accept_data}
use game_network.Client.Listen.{listen as client_listen}
use game_network.Client.Data.{next_packet, next_packet-IsSendable}
use game_network.Client.Data as ClientData
use game_network.Server.{Server, ConnectionInfo, connection_at, no_connection}
use game_network.Server.Handlers.{send_game_data as server_sends}
use game_network.Server.Slots.{get_or-set_self}
use game_network.Server.Data as ServerData
use game_network.Handshake.{arriving}
use game_network.Handshake.Connects.{arriving-snoc}

pub for_it : (a : Address) (b : Bool) → same_address a a || b ≡ true
for_it a b = rw ((same_address_iff a a).0.1 refl)

module _ (h : Host) (c : Crypto) (x : KeyExchange) (now p_size : ℕ) (ca sa : Address) (k : ℕ) where
  -- The two ends of the connection `k`: the same key, and the client has got the server's last packet.
  pub record InStep (cl : Client) (sv : Server) : Type 0 where
    pub is_open : is_connected cl.state ≡ true
    pub address : (connection_at sv k).client_address ≡ ca
    pub same_key : (connection_at sv k).shared_key ≡ cl.shared_key
    pub same_number : (connection_at sv k).sequence ≡ cl.ack
    pub number_fits : cl.ack < 2 ^ 16
    pub has_slot : k < length sv.connections

  -- Each message is sent by the server and what is sent arrives at the client, one after the other.
  unfoldable pub stream : List (List ℕ) → Client → Server → List (Result Heard)
  stream [] cl sv = []
  stream (bytes ∷ messages) cl sv =
      let sv' = (server_sends h c x now k bytes (length bytes) sv).0 in
      let (cl', heard) = client_listen h c x now now p_size (arriving ca sa sv'.sent) cl in
      heard ∷ stream messages cl' sv'

  module _ (bytes : List ℕ) (small : length bytes + c.hmac_size < 2 ^ 31 - 11) (cl : Client)
      (sv : Server) where
    abbrev e : ConnectionInfo
    e = connection_at sv k

    -- What arrives of the server's data.
    pub arriving-sending :
        e.client_address ≡ ca
        → e.shared_key ≡ cl.shared_key
        → arriving ca sa (ServerData.sending h c x now bytes small k sv).sent
          ≡ some (sa, ClientData.next_wire h c x bytes small e.sequence cl.shared_key)
    arriving-sending to key =
        rw (to, key)
          (arriving-snoc ca sa sv.sent ca
            (ClientData.next_wire h c x bytes small e.sequence cl.shared_key) (for_it ca _))

    abbrev e' : ConnectionInfo
    e' = connection_at (ServerData.sending h c x now bytes small k sv) k

    entry-sending :
        k < length sv.connections → e' ≡ record e { sequence = (e.sequence + 1) % 2 ^ 16 }
    entry-sending low =
        get_or-set_self sv.connections k (record e { sequence = (e.sequence + 1) % 2 ^ 16 })
          (no_connection 0) low

    -- The client that has heard the data.
    abbrev hearing : Client
    hearing =
        record (ClientData.noted h c x (next_packet e.sequence bytes)
          (next_packet-IsSendable e.sequence bytes) small now sa cl) {
            ack = (e.sequence + 1) % 2 ^ 16;
          }

    newer :
        e.sequence < 2 ^ 16 → sequence_greater_than ((e.sequence + 1) % 2 ^ 16) e.sequence ≡ true
    newer fits = (sequence_greater_than-window e.sequence 1 fits (omega arith) (omega arith)).0

    listen-hearing :
        InStep cl sv
        → length bytes + c.hmac_size + 11 ≤ 1024
        → length bytes ≤ p_size
        → client_listen h c x now now p_size
            (some (sa, ClientData.next_wire h c x bytes small e.sequence cl.shared_key))
            cl
          ≡ (hearing, ok (pos (length bytes), bytes))
    unfolding accept_data
    listen-hearing i fits room =
        ClientData.listen-data h c x (next_packet e.sequence bytes)
          (next_packet-IsSendable e.sequence bytes) small now now p_size sa cl fits i.is_open
        ∙ (let low : e.sequence < 2 ^ 16 = omega arith in
            let new : sequence_greater_than ((e.sequence + 1) % 2 ^ 16) cl.ack ≡ true =
              ap (λ n. sequence_greater_than ((e.sequence + 1) % 2 ^ 16) n) (sym i.same_number)
              ∙ newer low in
            let enough : leb (length bytes) p_size ≡ true = ground arith in
            let positive : to_int (length bytes) ≡ pos (length bytes) = ground arith in
            rw (new, enough, positive) refl)

    InStep-sending : InStep cl sv → InStep hearing (ServerData.sending h c x now bytes small k sv)
    InStep-sending i =
        let same = entry-sending i.has_slot in
        record {
          is_open = i.is_open;
          address = ap (λ (a : ConnectionInfo). a.client_address) same ∙ i.address;
          same_key = ap (λ (a : ConnectionInfo). a.shared_key) same ∙ i.same_key;
          same_number = ap (λ (a : ConnectionInfo). a.sequence) same;
          number_fits = omega arith;
          has_slot = omega (
            arith,
            i.has_slot,
            length-set sv.connections k (record e { sequence = (e.sequence + 1) % 2 ^ 16 }),
          );
        }

  -- Every message fits, with its header and signature, the receiver's buffer of 1024 bytes, and the
  -- room for game data at the receiver.
  pub data Fit : List (List ℕ) → Type 0 where
    no_message : Fit []
    one_more :
        (bytes : List ℕ) (messages : List (List ℕ))
        → length bytes + c.hmac_size + 11 ≤ 1024
        → length bytes ≤ p_size
        → Fit messages
        → Fit (bytes ∷ messages)

  -- What a client should hear of the messages.
  abbrev pub in_order : List (List ℕ) → List (Result Heard)
  in_order = map (λ bytes. ok (pos (length bytes), bytes))

  -- Where the two ends of a connection are in step, and each message fits the client's buffer of 1024
  -- bytes and the room at the caller of Listen, the client hears each message that the server
  -- sends, whole, once and in their order, also around the end of the sequence numbers.
  pub stream-in_order :
      (messages : List (List ℕ)) (cl : Client) (sv : Server)
      → InStep cl sv
      → Fit messages
      → stream messages cl sv ≡ in_order messages
  unfolding stream
  stream-in_order [] cl sv i fit = refl
  stream-in_order _ cl sv i (one_more bytes messages fits room fit) =
      let small : length bytes + c.hmac_size < 2 ^ 31 - 11 = omega (arith, fits) in
      rw
        (
          ServerData.send_game_data-sending h c x now bytes small sv k i.has_slot,
          arriving-sending bytes small cl sv i.address i.same_key,
          listen-hearing bytes small cl sv i fits room,
        )
        (ap (λ heard. ok (pos (length bytes), bytes) ∷ heard)
          (stream-in_order messages (hearing bytes small cl sv)
            (ServerData.sending h c x now bytes small k sv) (InStep-sending bytes small cl sv i)
            fit))
