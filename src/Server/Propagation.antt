-- ===== src/Server/Propagation.antt =====
-- Server.cpp's PropagateGameData: what goes out to whom.
use game_network.Base.{
  arith, ℕ, zero, suc, ◌+◌, ◌-◌, ◌^◌, ◌%◌, ◌≤◌, ◌<◌, ◌≡◌, refl, sym, ap, ◌∙◌, false, List, [], ◌∷◌,
  ◌++◌, append_assoc, append-nil, if◌then◌else◌, get_or, length, length-set, ok, Bool-cases, inl,
  inr,
}
use game_network.Platform.{Host, Crypto, KeyExchange}
use game_network.Address.{Address}
use game_network.Server.{Server, connection_at, no_connection}
use game_network.Server.Handlers.{propagate_loop, propagate_game_data}
use game_network.Server.Invariant.{IsValid}
use game_network.Server.Slots.{get_or-set_ne}
use game_network.Server.Data.{sending, send_game_data-sending}
use game_network.Client.Data.{next_wire}

module _ (h : Host) (c : Crypto) (x : KeyExchange) (now : ℕ) (bytes : List ℕ)
    (small : length bytes + c.hmac_size < 2 ^ 31 - 11) where
  -- One packet for each connected client, in the order of the slots, each with the client's key and
  -- under the number behind the last one for it.
  abbrev pub packets : ℕ → ℕ → Server → List (Address × List ℕ)
  packets zero i s = []
  packets (suc left) i s =
      if get_or s.connected i false
      then (
        (connection_at s i).client_address,
        next_wire h c x bytes small (connection_at s i).sequence (connection_at s i).shared_key,
      )
        ∷ packets left (i + 1) s
      else packets left (i + 1) s

  -- The server that has sent them.
  abbrev propagated : ℕ → ℕ → Server → Server
  propagated zero i s = s
  propagated (suc left) i s =
      if get_or s.connected i false
      then propagated left (i + 1) (sending h c x now bytes small i s)
      else propagated left (i + 1) s

  propagate_loop-propagated :
      (left i : ℕ) (s : Server)
      → i + left ≤ length s.connections
      → propagate_loop h c x now left i bytes (length bytes) s ≡ (propagated left i s, ok tt)
  unfolding propagate_loop
  propagate_loop-propagated zero i s low = refl
  propagate_loop-propagated (suc left) i s low = elim (Bool-cases (get_or s.connected i false)) [
    | inl e ↦
        rw (e, send_game_data-sending h c x now bytes small s i (omega arith))
          (propagate_loop-propagated left (i + 1) (sending h c x now bytes small i s) (
            omega (
              arith,
              low,
              length-set s.connections i (record (connection_at s i) {
                sequence = ((connection_at s i).sequence + 1) % 2 ^ 16;
              }),
            )))
    | inr e ↦ rw e (propagate_loop-propagated left (i + 1) s (omega arith))
  ]

  other_entry :
      (s : Server) (i k : ℕ)
      → i < k
      → connection_at (sending h c x now bytes small i s) k ≡ connection_at s k
  other_entry s i k lt = get_or-set_ne s.connections i k _ (no_connection 0) (λ e. omega arith)

  packets-sending :
      (left k i : ℕ) (s : Server)
      → i < k
      → packets left k (sending h c x now bytes small i s) ≡ packets left k s
  packets-sending zero k i s lt = refl
  packets-sending (suc left) k i s lt =
      rw (other_entry s i k lt, packets-sending left (k + 1) i s (omega arith)) refl

  propagated-sent :
      (left i : ℕ) (s : Server) → (propagated left i s).sent ≡ s.sent ++ packets left i s
  propagated-sent zero i s = sym (append-nil s.sent)
  propagated-sent (suc left) i s = elim (Bool-cases (get_or s.connected i false)) [
    | inl e ↦ rw e (
        propagated-sent left (i + 1) (sending h c x now bytes small i s)
        ∙ append_assoc s.sent (packet ∷ [])
            (packets left (i + 1) (sending h c x now bytes small i s))
        ∙ ap (λ ds. s.sent ++ packet ∷ ds) (packets-sending left (i + 1) i s (omega arith)))
    | inr e ↦ rw e (propagated-sent left (i + 1) s)
  ]
    where
      packet : Address × List ℕ
      packet = (
        (connection_at s i).client_address,
        next_wire h c x bytes small (connection_at s i).sequence (connection_at s i).shared_key,
      )

  -- The propagation of game data that fit a packet succeeds on a server with its four slots, and
  -- sends one packet to each connected client but the host, in the order of the slots, signed with
  -- that client's key and under the next number of that client's; nothing else goes out.
  pub propagate_game_data-packets :
      (s : Server)
      → IsValid s
      → let (t, r) = propagate_game_data h c x now bytes (length bytes) s in
        (r ≡ ok tt) × (t.sent ≡ s.sent ++ packets 3 1 s)
  unfolding propagate_game_data
  propagate_game_data-packets s v =
      rw (propagate_loop-propagated 3 1 s (omega (arith, v.connections_size)))
        (refl, propagated-sent 3 1 s)
