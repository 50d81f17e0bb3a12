-- ===== src/Handshake/Leaving.antt =====
-- A client that leaves: SendDisconnect of Client.cpp, whose ten packets arrive one after the other,
-- and Listen and RemoveClient of Server.cpp.
use game_network.Base.{
  arith, ℕ, zero, suc, ◌+◌, ◌≤◌, ◌≡◌, ◌≢◌, refl, sym, ap, ◌∙◌, true, false, ◌&&◌, List, drop,
  drop-length, get_or, set, length, replicate, some, Result,
}
use game_network.Base.Int.{ℤ, pos, is_positive, is_index, sub_one_ℤ}
use game_network.Platform.{Host, Crypto, KeyExchange}
use game_network.Crc.{Statics}
use game_network.Address.{Address, same_address}
use game_network.Client.{Client, is_connected, is_disconnected, send_disconnect, disconnect}
use game_network.Client.Leaving.{leave_wire, send_disconnect-leaving}
use game_network.Server.{
  Server, connection_at, no_connection, find_existing_connection_index,
  find_existing_challenge_index,
}
use game_network.Server.Listen.{Heard}
use game_network.Server.Listen.{listen as server_listen}
use game_network.Server.Slots.{get_or-set_ne}
use game_network.Server.Leaving.{
  OnlyStatics, listen_stranger-OnlyStatics, listen-leaving, without, passes, remove_client-without,
  find_existing_connection_index-without, find_existing_connection_index-gone,
}
use game_network.Handshake.{server_hears_each, delivered}
use game_network.Handshake.Stream.{for_it}

-- A number after `--` has been applied some times.
abbrev pub less : ℕ → ℤ → ℤ
less zero z = z
less (suc n) z = less n (sub_one_ℤ z)

module _ (h : Host) (c : Crypto) (x : KeyExchange) (now p_size : ℕ) (ca sa : Address)
    (small : c.hmac_size + 5 ≤ 1024) where
  -- A datagram for the server arrives.
  arrives : (bytes : List ℕ) → delivered sa ca (some (sa, bytes)) ≡ some (ca, bytes)
  arrives bytes = rw (for_it sa _) refl

  -- The ten packets, as the server hears them.
  abbrev heard_times : ℕ → List ℕ → Server → Server
  heard_times n wire = server_hears_each h c x now p_size ca sa (replicate n (sa, wire))

  heard_once :
      (n : ℕ) (wire : List ℕ) (sv t : Server)
      → (server_listen h c x now p_size (some (ca, wire)) sv).0 ≡ t
      → heard_times (suc n) wire sv ≡ heard_times n wire t
  unfolding server_hears_each
  heard_once n wire sv t e =
      ap (λ d. heard_times n wire (server_listen h c x now p_size d sv).0) (arrives wire)
      ∙ ap (heard_times n wire) e

  -- The server hears the packet of a client that has a connection.
  hears-without :
      (k : ℕ) (key : List ℕ) (s : Server)
      → find_existing_connection_index ca s ≡ pos (suc k)
      → (connection_at s (suc k)).shared_key ≡ key
      → (server_listen h c x now p_size (some (ca, leave_wire h c x key)) s).0 ≡ without now ca s
  hears-without k key s there same_key =
      ap (λ l. (server_listen h c x now p_size (some (ca, leave_wire h c x l)) s).0) (sym same_key)
      ∙ ap (λ (r : Server × Result Heard). r.0) (listen-leaving h c x now p_size ca s k small there)
      ∙ remove_client-without now ca s k there

  -- The client of the connection `k + 2`, and the server that reports `z` clients.
  record Stays (k : ℕ) (key : List ℕ) (z : ℤ) (s : Server) : Type 0 where
    there : find_existing_connection_index ca s ≡ pos (suc (suc k))
    same_key : (connection_at s (suc (suc k))).shared_key ≡ key
    count : s.num_connections ≡ z

  Stays-without :
      (k : ℕ) (key : List ℕ) (z : ℤ) (s : Server)
      → Stays k key z s
      → Stays k key (sub_one_ℤ z) (without now ca s)
  Stays-without k key z s p = record {
    there = find_existing_connection_index-without now ca s k p.there;
    same_key =
        ap (λ e. e.shared_key)
          (get_or-set_ne s.connections 1 (suc (suc k)) (no_connection now) (no_connection 0)
            (λ q. omega arith))
        ∙ p.same_key;
    count = ap sub_one_ℤ p.count;
  }

  heard-Stays :
      (n k : ℕ) (key : List ℕ) (z : ℤ) (s : Server)
      → Stays k key z s
      → Stays k key (less n z) (heard_times n (leave_wire h c x key) s)
  unfolding server_hears_each
  heard-Stays zero k key z s p = p
  heard-Stays (suc n) k key z s p =
      rw
        (heard_once n (leave_wire h c x key) s (without now ca s)
          (hears-without (suc k) key s p.there p.same_key))
        (heard-Stays n k key (sub_one_ℤ z) (without now ca s) (Stays-without k key z s p))

module _ (h : Host) (c : Crypto) (x : KeyExchange) (now p_size : ℕ) (ca sa : Address)
    (small : c.hmac_size + 5 ≤ 1024) where
  -- Packets of a client that is gone change no table.
  heard-OnlyStatics :
      (n : ℕ) (key : List ℕ) (s : Server)
      → is_positive (find_existing_connection_index ca s) ≡ false
      → is_index (find_existing_challenge_index ca s) ≡ false
      → OnlyStatics s
          (server_hears_each h c x now p_size ca sa (replicate n (sa, leave_wire h c x key)) s)
  unfolding server_hears_each find_existing_connection_index find_existing_challenge_index
  heard-OnlyStatics zero key s stranger new = (s.statics, refl)
  heard-OnlyStatics (suc n) key s stranger new =
      let (r, e) = listen_stranger-OnlyStatics h c x now p_size ca s key small stranger new in
      let (r', e') = heard-OnlyStatics n key (record s { statics = r }) stranger new in
      (r', heard_once h c x now p_size ca sa small n (leave_wire h c x key) s _ e ∙ e')

  heard-frees :
      (key : List ℕ) (s : Server)
      → find_existing_connection_index ca s ≡ pos 1
      → (connection_at s 1).shared_key ≡ key
      → ((i : ℕ) → 1 ≢ i → passes now ca s i ≡ false)
      → is_index (find_existing_challenge_index ca s) ≡ false
      → OnlyStatics
          (without now ca s)
          (server_hears_each h c x now p_size ca sa (replicate 10 (sa, leave_wire h c x key)) s)
  unfolding find_existing_challenge_index
  heard-frees key s there same_key alone new =
      let gone =
        find_existing_connection_index-gone now ca s (alone 0 (λ q. omega arith))
          (alone 2 (λ q. omega arith)) (alone 3 (λ q. omega arith)) in
      let (r, e) = heard-OnlyStatics 9 key (without now ca s) (ap is_positive gone) new in
      (
        r,
        heard_once h c x now p_size ca sa small 9 (leave_wire h c x key) s _
              (hears-without h c x now p_size ca sa small 0 key s there same_key)
            ∙ e,
      )

module _ (h : Host) (c : Crypto) (x : KeyExchange) (now p_size : ℕ) (ca sa : Address)
    (small : c.hmac_size + 5 ≤ 1024) (cl : Client) (sv : Server) where
  leaves_with :
      is_connected cl.state ≡ true
      → cl.server_address ≡ sa
      → drop (length cl.sent) (send_disconnect h c x cl).0.sent
        ≡ replicate 10 (sa, leave_wire h c x cl.shared_key)
  unfolding disconnect
  leaves_with open_end to =
      rw (send_disconnect-leaving h c x cl (omega (arith, small)) open_end, to)
        (drop-length cl.sent _)

  -- A connected client that leaves, and that the server has as a connection behind the second, with
  -- the same key: it is disconnected and its ten packets arrive, but the server still has it as that
  -- connection, and reports ten clients fewer.
  pub leaving-Stays :
      (k : ℕ)
      → is_connected cl.state ≡ true
      → cl.server_address ≡ sa
      → find_existing_connection_index ca sv ≡ pos (suc (suc k))
      → (connection_at sv (suc (suc k))).shared_key ≡ cl.shared_key
      → let cl' = (send_disconnect h c x cl).0 in
        let sv' = server_hears_each h c x now p_size ca sa (drop (length cl.sent) cl'.sent) sv in
        (is_disconnected cl'.state ≡ true)
        × (find_existing_connection_index ca sv' ≡ pos (suc (suc k)))
        × (sv'.num_connections ≡ less 10 sv.num_connections)
  unfolding disconnect
  leaving-Stays k open_end to there same_key =
      let p =
        heard-Stays h c x now p_size ca sa small 10 k cl.shared_key sv.num_connections sv
          (record { there = there; same_key = same_key; count = refl }) in
      (
        ap (λ (r : Client × Result (Unit {0})). is_disconnected r.0.state)
            (send_disconnect-leaving h c x cl (omega (arith, small)) open_end),
        rw (leaves_with open_end to) p.there,
        rw (leaves_with open_end to) p.count,
      )

  -- A connected client that leaves, and that the server has as its second connection, with the same
  -- key, no other connection with its address and no challenge: it is disconnected, and of its ten
  -- packets the first frees the slot and takes one from the count, and the others change nothing
  -- but the table of the checksum.
  pub leaving-frees :
      is_connected cl.state ≡ true
      → cl.server_address ≡ sa
      → find_existing_connection_index ca sv ≡ pos 1
      → (connection_at sv 1).shared_key ≡ cl.shared_key
      → ((i : ℕ)
          → 1 ≢ i
          → get_or sv.connected i false && same_address (connection_at sv i).client_address ca
            ≡ false)
      → is_index (find_existing_challenge_index ca sv) ≡ false
      → let cl' = (send_disconnect h c x cl).0 in
        let sv' = server_hears_each h c x now p_size ca sa (drop (length cl.sent) cl'.sent) sv in
        (is_disconnected cl'.state ≡ true)
        × ((statics : Statics) × (sv' ≡ record sv {
          connected = set sv.connected 1 false;
          connections = set sv.connections 1 (no_connection now);
          num_connections = sub_one_ℤ sv.num_connections;
          statics = statics;
        }))
  unfolding disconnect
  leaving-frees open_end to there same_key alone new = (
    ap (λ (r : Client × Result (Unit {0})). is_disconnected r.0.state)
        (send_disconnect-leaving h c x cl (omega (arith, small)) open_end),
    rw (leaves_with open_end to)
        (heard-frees h c x now p_size ca sa small cl.shared_key sv there same_key alone new),
  )
