-- ===== src/Server/Evicting.antt =====
-- What a second request makes of the first: the challenges share the second slot.
use game_network.Base.{
  arith, ℕ, ◌≡◌, ◌≢◌, refl, ap, ◌∙◌, Bool, true, false, ◌&&◌, List, some, get_or, set,
}
use game_network.Base.Int.{pos, negsuc, is_positive}
use game_network.Platform.{Host, Crypto, KeyExchange, KeySizes}
use game_network.Address.{Address, same_address}
use game_network.Crc.{Statics}
use game_network.Crc.Table
use game_network.Packet.{connection_request}
use game_network.Packet.Keys
use game_network.Server.{
  Server, first_index, challenge_at, no_challenge, find_existing_connection_index,
  find_existing_challenge_index, find_free_challenge_index,
}
use game_network.Server.Handlers.{put_challenge, start_task}
use game_network.Server.Invariant.{IsValid, resized}
use game_network.Server.Listen.{in_lobby, listen}
use game_network.Server.Slots.{get_or-set_self, get_or-set_ne}
use game_network.Server.Challenging as Challenging

-- A challenge with an address.
abbrev pub passes : Address → Server → ℕ → Bool
passes a t i = get_or t.challenged i false && same_address (challenge_at t i).client_address a

module _ (h : Host) (c : Crypto) (x : KeyExchange) (sizes : KeySizes c x) (now : ℕ)
    (from other : Address) where
  module _ (key : List ℕ) (s : Server) (valid : IsValid s) where
    abbrev started : Server
    started = Challenging.started h c x sizes now from key s

    -- The other slots stay.
    kept : (i : ℕ) → 1 ≢ i → passes other started i ≡ passes other s i
    unfolding put_challenge start_task
    kept i ne =
        rw
          (
            get_or-set_ne s.challenged 1 i true false ne,
            get_or-set_ne (set s.challenges 1 (Challenging.entry h c x sizes now from key s)) 1 i _
                (no_challenge 0) ne,
            get_or-set_ne s.challenges 1 i (Challenging.entry h c x sizes now from key s)
                (no_challenge 0) ne,
          )
          refl

    -- The second slot has the new sender.
    taken : same_address from other ≡ false → passes other started 1 ≡ false
    unfolding put_challenge start_task
    taken apart =
        rw
          (
            get_or-set_self s.challenged 1 true false (omega (arith, valid.challenged_size)),
            ap (λ e. e.client_address)
                (Challenging.started_entry h c x sizes now from key s valid.challenges_size),
            apart,
          )
          refl

    lost :
        same_address from other ≡ false
        → ((i : ℕ) → 1 ≢ i → passes other s i ≡ false)
        → find_existing_challenge_index other started ≡ negsuc 0
    unfolding find_existing_challenge_index first_index
    lost apart alone =
        rw
          (
            kept 0 (λ e. omega arith) ∙ alone 0 (λ e. omega arith),
            taken apart,
            kept 2 (λ e. omega arith) ∙ alone 2 (λ e. omega arith),
            kept 3 (λ e. omega arith) ∙ alone 3 (λ e. omega arith),
          )
          refl

  -- A request of a new sender that arrives at a server in the lobby with a free challenge, whichever
  -- slot that is, takes the second slot: a client that was challenged there, and in no other slot, has
  -- no challenge afterwards, and the new sender has that one.
  pub request-evicts :
      (p_size : ℕ) (s : Server) (n j : ℕ) (r : Statics) (w : Table.IsValid r)
      → Table.IsValid s.statics
      → IsValid s
      → in_lobby s ≡ true
      → is_positive (find_existing_connection_index from s) ≡ false
      → find_existing_challenge_index from s ≡ negsuc 0
      → find_free_challenge_index s ≡ pos j
      → find_existing_challenge_index other s ≡ pos 1
      → ((i : ℕ) → 1 ≢ i → passes other s i ≡ false)
      → same_address from other ≡ false
      → let s' =
          (listen h c x now p_size
            (some (from, Keys.wire_of h c x sizes n r w connection_request))
            s).0 in
        (find_existing_challenge_index other s' ≡ negsuc 0)
        × (find_existing_challenge_index from s' ≡ pos 1)
  unfolding find_existing_challenge_index
  request-evicts p_size s n j r w v valid lobby stranger new free there alone apart =
      rw
        (Challenging.listen-challenging h c x sizes now p_size from s n j r w v
          valid.challenges_size lobby stranger new free)
        (
          lost (x.public_of n) (Challenging.filled h c x sizes now s)
              (resized (Challenging.filled h c x sizes now s) valid refl refl refl refl
                valid.host_connected)
              apart alone,
          Challenging.find_existing_challenge_index-started h c x sizes now from (x.public_of n)
              (Challenging.filled h c x sizes now s) valid.challenges_size valid.challenged_size
              new,
        )
