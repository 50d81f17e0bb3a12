-- ===== src/Handshake/Visit.antt =====
-- A client that joins and leaves: the handshake, and SendDisconnect with its ten packets.
use game_network.Base.{
  arith, ℕ, zero, suc, ◌≤◌, ◌<◌, ◌≡◌, ◌≢◌, refl, sym, ap, subst, ◌∙◌, Bool, true, false, ◌&&◌, List,
  [], ◌∷◌, get_or, set, drop, length, inl, inr, ℕ_discrete, dec_lt,
}
use game_network.Base.Int.{ℤ, pos, negsuc, is_positive, is_index, add_one_ℤ, sub_one_ℤ}
use game_network.Platform.{Host, Crypto, KeyExchange, KeySizes}
use game_network.Address.{Address, same_address}
use game_network.Address.Octets.{same_address_iff}
use game_network.Crc.{Statics}
use game_network.Crc.Table
use game_network.Client.{Client, is_disconnected, send_disconnect}
use game_network.Server.{
  Server, first_index, challenge_at, no_connection, is_false, find_existing_connection_index,
  find_existing_challenge_index, find_free_challenge_index, find_free_connection_index, resolve,
}
use game_network.Server.Handlers.{promote, put_challenge, start_task}
use game_network.Server.Listen.{in_lobby}
use game_network.Server.Invariant.{IsValid}
use game_network.Server.Slots.{first_index-first, get_or-set_ne, get_or-set-false}
use game_network.Server.Joining.{HasJoined}
use game_network.Server.Counting.{free_slot}
use game_network.Server.Leaving.{passes, without, find_existing_connection_index-gone}
use game_network.Handshake.{handshake, server_hears_each}
use game_network.Handshake.Connects.{handshake-connects, stations, sv₂}
use game_network.Handshake.Leaving.{leaving-frees}

-- Nothing of the table passes where the search has found nothing.
none_passes : (test : ℕ → Bool) (i : ℕ) → i < 4 → first_index 4 0 test ≡ negsuc 0 → test i ≡ false
none_passes test i low e = elim (first_index-first 4 0 test) [
  | inl (k, found, p, q, t, below) ↦ absurd (cc (found, e))
  | inr (none_found, below) ↦ below i (omega arith) (omega arith)
]

none_found :
    (test : ℕ → Bool) → ((i : ℕ) → i < 4 → test i ≡ false) → is_index (first_index 4 0 test) ≡ false
none_found test none_there = elim (first_index-first 4 0 test) [
  | inl (k, found, p, q, t, below) ↦ absurd (let e = none_there k (omega arith) in cc (t, e))
  | inr (found, below) ↦ ap is_index found
]

untouched :
    (i : ℕ) → 1 ≢ i → {A : Type 0} (xs : List A) (v d : A) → get_or (set xs 1 v) i d ≡ get_or xs i d
untouched i other xs v d = get_or-set_ne xs 1 i v d other

-- A search finds the one that passes.
only_passes :
    (test : ℕ → Bool) (k : ℕ)
    → k < 4
    → test k ≡ true
    → ((i : ℕ) → k ≢ i → test i ≡ false)
    → first_index 4 0 test ≡ pos k
only_passes test k low there others = elim (first_index-first 4 0 test) [
  | inl (m, found, p, q, t, below) ↦ elim (ℕ_discrete k m) [
    | yes same ↦ found ∙ ap pos (sym same)
    | no other ↦ absurd (let e = others m other in cc (t, e))
  ]
  | inr (none_found, below) ↦ absurd (let e = below k (omega arith) (omega arith) in cc (there, e))
]

beyond : {A : Type 0} (xs : List A) (i : ℕ) (d : A) → length xs ≤ i → get_or xs i d ≡ d
beyond [] i d le = refl
beyond (x ∷ xs) zero d le = absurd (omega arith)
beyond (x ∷ xs) (suc i) d le = beyond xs i d (omega arith)

given_back : (bs : List Bool) (i : ℕ) → get_or bs i false ≡ false → set (set bs i true) i false ≡ bs
given_back [] i e = refl
given_back (b ∷ bs) zero e = ap (λ a. a ∷ bs) (sym e)
given_back (b ∷ bs) (suc i) e = ap (λ cs. b ∷ cs) (given_back bs i e)

sub_one-add_one : (z : ℤ) → sub_one_ℤ (add_one_ℤ z) ≡ z
sub_one-add_one (pos n) = refl
sub_one-add_one (negsuc zero) = refl
sub_one-add_one (negsuc (suc n)) = refl

module _ (now : ℕ) (ca : Address) (sv : Server) (valid : IsValid sv) where
  stranger_passes :
      (i : ℕ) → find_existing_connection_index ca sv ≡ negsuc 0 → passes now ca sv i ≡ false
  unfolding find_existing_connection_index
  stranger_passes i unknown = elim (dec_lt i 4) [
    | yes low ↦ none_passes (passes now ca sv) i low unknown
    | no high ↦ rw (beyond sv.connected i false (omega (arith, valid.connected_size))) refl
  ]

module _ (h : Host) (c : Crypto) (x : KeyExchange) (sizes : KeySizes c x) (now p_size : ℕ)
    (ca sa : Address) (cl : Client) (sv : Server) (v : Table.IsValid cl.statics)
    (w : Table.IsValid sv.statics) (j : ℕ) (valid : IsValid sv) (lobby : in_lobby sv ≡ true)
    (unknown : find_existing_connection_index ca sv ≡ negsuc 0)
    (new : find_existing_challenge_index ca sv ≡ negsuc 0)
    (free : find_free_challenge_index sv ≡ pos j)
    (room : find_free_connection_index sv ≡ pos 1) where
  stranger : is_positive (find_existing_connection_index ca sv) ≡ false
  stranger = ap is_positive unknown

  -- The server behind the handshake.
  abbrev joined : Server
  joined = sv₂ h c x sizes now p_size ca sa cl sv v w j 1 valid lobby stranger new free room

  joined-passes : (i : ℕ) → 1 ≢ i → passes now ca joined i ≡ false
  unfolding promote put_challenge start_task resolve
  joined-passes i other =
      rw
        (
          get_or-set_ne sv.connected 1 i true false other,
          get_or-set_ne sv.connections 1 i _ (no_connection 0) other,
        )
        (stranger_passes now ca sv valid i unknown)

  joined-connected : set joined.connected 1 false ≡ sv.connected
  unfolding promote put_challenge start_task resolve
  joined-connected = given_back sv.connected 1 (free_slot sv 1 room).1

  -- A challenge with the client's address.
  challenges_it : Server → ℕ → Bool
  challenges_it t i =
      get_or t.challenged i false && same_address (challenge_at t i).client_address ca

  joined-challenges_second : challenges_it joined 1 ≡ false
  unfolding promote put_challenge start_task resolve challenges_it
  joined-challenges_second = rw (get_or-set-false (set sv.challenged 1 true) 1) refl

  joined-challenges : (i : ℕ) → 1 ≢ i → challenges_it joined i ≡ challenges_it sv i
  unfolding promote put_challenge start_task resolve challenges_it
  joined-challenges i other = simp (untouched i other)

  joined-unchallenged : is_index (find_existing_challenge_index ca joined) ≡ false
  unfolding find_existing_challenge_index challenges_it
  joined-unchallenged = none_found (challenges_it joined) λ i low. elim (ℕ_discrete 1 i) [
    | yes same ↦ ap (challenges_it joined) (sym same) ∙ joined-challenges_second
    | no other ↦ joined-challenges i other ∙ none_passes (challenges_it sv) i low new
  ]

  -- What a server is like that a client has joined in the second slot, and that knew nothing of it.
  record IsVisited (t : Server) : Type 0 where
    alone : (i : ℕ) → 1 ≢ i → passes now ca t i ≡ false
    unchallenged : is_index (find_existing_challenge_index ca t) ≡ false
    given : set t.connected 1 false ≡ sv.connected

  handshake-IsVisited :
      is_disconnected cl.state ≡ true → IsVisited (handshake h c x now p_size ca sa cl sv).1
  handshake-IsVisited idle =
      subst (λ (r : Client × Server). IsVisited r.1)
        (sym (
          stations h c x sizes now p_size ca sa cl sv v w j 1 valid lobby stranger new free room
            idle))
        (record {
          alone = joined-passes;
          unchallenged = joined-unchallenged;
          given = joined-connected;
        })

  found_second :
      (t : Server) (key : List ℕ)
      → IsVisited t
      → HasJoined ca key 1 1 t
      → find_existing_connection_index ca t ≡ pos 1
  unfolding find_existing_connection_index
  found_second t key p q =
      only_passes (passes now ca t) 1 (omega arith)
        (rw (q.is_connected, q.address, (same_address_iff ca ca).0.1 refl) refl) p.alone

  room_again : (t : Server) → t.connected ≡ sv.connected → find_free_connection_index t ≡ pos 1
  unfolding find_free_connection_index
  room_again t e =
      ap (λ (bs : List Bool). first_index 4 0 (λ i. is_false (get_or bs i false))) e ∙ room

  gone :
      (t u : Server) (r : Statics)
      → IsVisited t
      → u ≡ record (without now ca t) { statics = r }
      → find_existing_connection_index ca u ≡ negsuc 0
  unfolding find_existing_connection_index
  gone t u r p e =
      ap (find_existing_connection_index ca) e
      ∙ find_existing_connection_index-gone now ca t (p.alone 0 (λ q. omega arith))
          (p.alone 2 (λ q. omega arith)) (p.alone 3 (λ q. omega arith))

  -- A visit leaves no trace: a disconnected client that a server in the lobby does not know joins it in
  -- the second slot by the handshake, and leaves; when its ten packets have arrived, the client is
  -- disconnected, and the same slots are taken as before the visit, as many clients are counted, the
  -- next one gets the second slot again, and nothing is found under the client's address.
  pub visit-restores :
      is_disconnected cl.state ≡ true
      → let (cl', sv') = handshake h c x now p_size ca sa cl sv in
        let cl'' = (send_disconnect h c x cl').0 in
        let sv'' =
          server_hears_each h c x now p_size ca sa (drop (length cl'.sent) cl''.sent) sv' in
        (is_disconnected cl''.state ≡ true)
        × (sv''.connected ≡ sv.connected)
        × (sv''.num_connections ≡ sv.num_connections)
        × (find_free_connection_index sv'' ≡ pos 1)
        × (find_existing_connection_index ca sv'' ≡ negsuc 0)
  visit-restores idle =
      let (open_end, own, ack, server, joins, counted) =
        handshake-connects h c x sizes now p_size ca sa cl sv v w j 1 valid lobby stranger new free
          room idle in
      let p = handshake-IsVisited idle in
      let (cl', sv') = handshake h c x now p_size ca sa cl sv in
      let (closed, (r, e)) =
        leaving-frees h c x now p_size ca sa (omega (arith, sizes.small)) cl' sv' open_end server
          (found_second sv' cl'.shared_key p joins) joins.shared_key p.alone p.unchallenged in
      let same = ap (λ (t : Server). t.connected) e ∙ p.given in
      (
        closed,
        same,
        ap (λ (t : Server). t.num_connections) e
            ∙ ap sub_one_ℤ counted
            ∙ sub_one-add_one sv.num_connections,
        room_again _ same,
        gone sv' _ r p e,
      )
