-- ===== src/Server/Leaving.antt =====
-- What the disconnect packets of a client make of the server's tables.
use game_network.Base.{
  ℕ, suc, ◌+◌, ◌≤◌, length, ◌≡◌, refl, ap, arith, Bool, true, false, ◌&&◌, List, some, get_or, set,
  if◌then◌else◌, Result, ok, throws, fault, ◌≢◌, out_of_range, exception_pointer,
}
use game_network.Base.Int.{pos, negsuc, sub_one_ℤ, is_positive, is_index}
use game_network.Platform.{Host, Crypto, KeyExchange}
use game_network.Address.{Address, same_address, no_address}
use game_network.Buffer.{Buffer}
use game_network.Crc.{Statics}
use game_network.Packet.{
  PacketType, invalid_packet, connection_request, challenge, challenge_response,
  connection_accepted, connection_data, disconnect, unlisted,
}
use game_network.Packet.Header.{header, length-header}
use game_network.Packet.Mistaken.{NoRequest, verify_packet_crc-NoRequest}
use game_network.Packet.Signed.{signed, length-signed}
use game_network.Packet.Control.{verify-bare}
use game_network.Base.Methods.{◌>>=◌, ◌>>◌, lift, modify}
use game_network.Socket.Wire.{slack_of, receive_into-cursor}
use game_network.Server.{
  Server, first_index, remove_client, find_existing_connection_index, find_existing_challenge_index,
  connection_at, no_connection,
}
use game_network.Server.Listen.{
  Heard, listen, identify, identify_unknown, dispatch, hear_disconnect, caught, only_request,
  nothing_heard,
}
use game_network.Server.Slots.{get_or-set_ne, get_or-set-false}
use game_network.Server.Challenging.{listen_lem}

only_request-ne : (t : PacketType) → t ≢ connection_request → only_request t ≡ invalid_packet
only_request-ne connection_request e = absurd (e refl)
only_request-ne invalid_packet e = refl
only_request-ne challenge e = refl
only_request-ne challenge_response e = refl
only_request-ne connection_accepted e = refl
only_request-ne connection_data e = refl
only_request-ne disconnect e = refl
only_request-ne (unlisted n) e = refl

-- The state is the old one but for the table of the checksum.
abbrev pub OnlyStatics : Server → Server → Type 0
OnlyStatics s t = (r : Statics) × (t ≡ record s { statics = r })

caught-OnlyStatics :
    (s : Server) (r : Server × Result Heard) → OnlyStatics s r.0 → OnlyStatics s (caught r).0
caught-OnlyStatics s (t, ok a) p = p
caught-OnlyStatics s (t, throws out_of_range) p = p
caught-OnlyStatics s (t, throws exception_pointer) p = p
caught-OnlyStatics s (t, fault) p = p

module _ (h : Host) (c : Crypto) (x : KeyExchange) (now p_size : ℕ) (from : Address) where
  -- What is left of `Listen` behind the check of a stranger's packet.
  unchecked-OnlyStatics :
      (r : Result (PacketType × Buffer × Statics)) (s t : Server)
      → NoRequest r
      → OnlyStatics s t
      → OnlyStatics s
          ((do
            (k, b) ← do
              (k, b, statics) ← lift r
              modify (λ u. record u { statics = statics })
              lift (ok (only_request k, b))
            dispatch h c x now p_size from k b)
            t).0
  unfolding dispatch
  unchecked-OnlyStatics (ok (k, b, statics)) s t e (r, p) =
      rw (only_request-ne k e) (statics, ap (λ (u : Server). record u { statics = statics }) p)
  unchecked-OnlyStatics (throws e) s t q p = p
  unchecked-OnlyStatics fault s t q p = p

  leave_fits :
      (key : List ℕ) → c.hmac_size + 5 ≤ 1024 → length (signed h c key (header disconnect)) ≤ 1024
  leave_fits key small =
      omega (arith, length-signed h c key (header disconnect), length-header disconnect)

  -- A disconnect packet of someone who has neither a connection nor a challenge changes no table.
  pub listen_stranger-OnlyStatics :
      (s : Server) (key : List ℕ)
      → c.hmac_size + 5 ≤ 1024
      → is_positive (find_existing_connection_index from s) ≡ false
      → is_index (find_existing_challenge_index from s) ≡ false
      → OnlyStatics s
          (listen h c x now p_size (some (from, signed h c key (header disconnect))) s).0
  unfolding listen identify identify_unknown
  listen_stranger-OnlyStatics s key small stranger new =
      let wire = signed h c key (header disconnect) in
      rw (receive_into-cursor h no_address from wire (leave_fits key small), stranger, new)
        (caught-OnlyStatics s _ (
          unchecked-OnlyStatics _ s _
            (verify_packet_crc-NoRequest h c _ (c.hmac key (header disconnect)) (slack_of h wire))
            (_, refl)))

  -- A client that has a connection behind the first is removed when its packet arrives.
  pub listen-leaving :
      (s : Server) (k : ℕ)
      → c.hmac_size + 5 ≤ 1024
      → find_existing_connection_index from s ≡ pos (suc k)
      → listen h c x now p_size
          (some (from, signed h c (connection_at s (suc k)).shared_key (header disconnect)))
          s
        ≡ (remove_client now from s, ok nothing_heard)
  unfolding identify dispatch hear_disconnect
  listen-leaving s k small there =
      let key = (connection_at s (suc k)).shared_key in
      listen_lem h c x now p_size from (signed h c key (header disconnect)) s _
        (leave_fits key small)
        (rw
          (
            there,
            verify-bare h c key disconnect (slack_of h (signed h c key (header disconnect))) tt
                (omega (arith, small)),
            there,
          )
          refl)

module _ (now : ℕ) (from : Address) where
  -- A connection with the sender's address.
  abbrev pub passes : Server → ℕ → Bool
  passes t i = get_or t.connected i false && same_address (connection_at t i).client_address from

  -- The server that has removed a client that has a connection.
  abbrev pub without : Server → Server
  without s = record s {
    connected = set s.connected 1 false;
    connections = set s.connections 1 (no_connection now);
    num_connections = sub_one_ℤ s.num_connections;
  }

  pub remove_client-without :
      (s : Server) (k : ℕ)
      → find_existing_connection_index from s ≡ pos (suc k)
      → remove_client now from s ≡ without s
  unfolding remove_client
  remove_client-without s k e = rw e refl

  passes-without_second : (s : Server) → passes (without s) 1 ≡ false
  passes-without_second s = rw (get_or-set-false s.connected 1) refl

  passes-without : (s : Server) (i : ℕ) → 1 ≢ i → passes (without s) i ≡ passes s i
  passes-without s i other =
      rw
        (
          get_or-set_ne s.connected 1 i false false other,
          get_or-set_ne s.connections 1 i (no_connection now) (no_connection 0) other,
        )
        refl

  -- A search that ends behind the second slot ends there when the second slot is given up.
  first_later :
      (p q r u : Bool) (k : ℕ)
      → (if p
          then pos 0
          else if q
          then pos 1
          else if r
          then pos 2
          else if u
          then pos 3
          else negsuc 0)
        ≡ pos (suc (suc k))
      → (if p then pos 0 else if r then pos 2 else if u then pos 3 else negsuc 0)
        ≡ pos (suc (suc k))
  first_later true q r u k e = absurd (cc e)
  first_later false true r u k e = absurd (cc e)
  first_later false false r u k e = e

  pub find_existing_connection_index-without :
      (s : Server) (k : ℕ)
      → find_existing_connection_index from s ≡ pos (suc (suc k))
      → find_existing_connection_index from (without s) ≡ pos (suc (suc k))
  unfolding find_existing_connection_index first_index
  find_existing_connection_index-without s k e =
      rw
        (
          passes-without s 0 (λ q. omega arith),
          passes-without_second s,
          passes-without s 2 (λ q. omega arith),
          passes-without s 3 (λ q. omega arith),
        )
        (first_later (passes s 0) (passes s 1) (passes s 2) (passes s 3) k e)

  -- Where only the second slot has the sender's address, it is found nowhere when that is given up.
  pub find_existing_connection_index-gone :
      (s : Server)
      → passes s 0 ≡ false
      → passes s 2 ≡ false
      → passes s 3 ≡ false
      → find_existing_connection_index from (without s) ≡ negsuc 0
  unfolding find_existing_connection_index first_index
  find_existing_connection_index-gone s p r u =
      rw
        (
          passes-without s 0 (λ q. omega arith),
          passes-without_second s,
          passes-without s 2 (λ q. omega arith),
          passes-without s 3 (λ q. omega arith),
          p,
          r,
          u,
        )
        refl
