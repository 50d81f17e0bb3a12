-- ===== src/Server/Joining.antt =====
-- What the response to a challenge makes of the server's tables.
use game_network.Base.{
  ℕ, ◌%◌, ◌^◌, ◌<◌, ◌≡◌, refl, sym, ap, ◌∙◌, arith, Bool, true, false, List, [], ◌∷◌, ◌++◌, ◌&&◌,
  subst, Option, none, some, get_or, inl, inr, Result, ok, throws, fault,
}
use game_network.Base.Int.{pos, add_one_ℤ, to_unsigned}
use game_network.Platform.{Host, Crypto, KeyExchange}
use game_network.Address.{Address, same_address}
use game_network.Address.Octets.{same_address_iff}
use game_network.Buffer.{Buffer, load, no_buffer}
use game_network.Packet.{write_connection_accepted}
use game_network.Base.Methods.{continue_with}
use game_network.Server.{
  Server, send, send_bytes, first_index, find_existing_challenge_index, find_free_connection_index,
  challenge_at, connection_at, no_challenge, no_connection, resolve, resolved, is_false,
}
use game_network.Server.Handlers.{handle_challenge_response, promote, send_accepted}
use game_network.Server.Invariant.{IsValid, resolve-Keeps}
use game_network.Server.Slots.{first_index-first, get_or-set_self, get_or-set-false}

-- The state is the old one but for what has been sent.
abbrev OnlySent : Server → Server → Type 0
OnlySent s t = (out : List (Address × List ℕ)) × (t ≡ record s { sent = out })

send_bytes-OnlySent :
    (a : Address) (bytes : Option (List ℕ)) (s : Server) → OnlySent s (send_bytes a bytes s).0
send_bytes-OnlySent a none s = (s.sent, refl)
send_bytes-OnlySent a (some bytes) s = (s.sent ++ (a, bytes) ∷ [], refl)

continue-OnlySent :
    (a : Address) (r : Result Buffer) (s : Server)
    → OnlySent s (continue_with r (λ b. send a b) s).0
unfolding send
continue-OnlySent a (ok b) s = send_bytes-OnlySent a (load 0 (to_unsigned b.size) b.memory) s
continue-OnlySent a (throws e) s = (s.sent, refl)
continue-OnlySent a fault s = (s.sent, refl)

-- A search that finds a slot finds one of the four, and one that passes.
pub found : (test : ℕ → Bool) (k : ℕ) → first_index 4 0 test ≡ pos k → (k < 4) × (test k ≡ true)
found test k e = elim (first_index-first 4 0 test) [
  | inl (j, here, p, q, t, below) ↦ (let same : j ≡ k = cc in (omega arith, ap test (sym same) ∙ t))
  | inr (none_found, below) ↦ absurd (cc)
]

-- The challenge that is found is the sender's.
pub found_challenge :
    (sender : Address) (s : Server) (i : ℕ)
    → find_existing_challenge_index sender s ≡ pos i
    → (i < 4) × ((challenge_at s i).client_address ≡ sender)
unfolding find_existing_challenge_index
found_challenge sender s i e =
    let (low, passes) =
      found
        (λ i. get_or s.challenged i false && same_address (challenge_at s i).client_address sender)
        i e in
    let same : same_address (challenge_at s i).client_address sender ≡ true = ground arith in
    (low, (same_address_iff (challenge_at s i).client_address sender).0.0 same)

pub found_connection : (s : Server) (k : ℕ) → find_free_connection_index s ≡ pos k → k < 4
unfolding find_free_connection_index
found_connection s k e = (found (λ i. is_false (get_or s.connected i false)) k e).0

-- To wait for the key changes the key alone.
pub resolve-challenge :
    (s : Server) (i : ℕ)
    → IsValid s
    → i < 4
    → (challenge_at (resolve i s) i ≡ resolved (challenge_at s i))
      × ((challenge_at (resolve i s) i).client_address ≡ (challenge_at s i).client_address)
unfolding resolve
resolve-challenge s i v p =
    let same =
      get_or-set_self s.challenges i (resolved (challenge_at s i)) (no_challenge 0)
        (omega (arith, v.challenges_size)) in
    (same, ap (λ e. e.client_address) same ∙ resolved-address (challenge_at s i).shared_key_future)
  where
    resolved-address :
        (f : Option (List ℕ))
        → (resolved (record (challenge_at s i) { shared_key_future = f })).client_address
          ≡ (challenge_at s i).client_address
    resolved-address none = refl
    resolved-address (some key) = refl

-- What a client finds that has joined.
pub record HasJoined (sender : Address) (key : List ℕ) (i k : ℕ) (t : Server) : Type 0 where
  pub is_connected : get_or t.connected k false ≡ true
  pub address : (connection_at t k).client_address ≡ sender
  pub shared_key : (connection_at t k).shared_key ≡ key
  pub new_numbers : (connection_at t k).sequence ≡ 0
  pub unchallenged : get_or t.challenged i false ≡ false

module _ (h : Host) (c : Crypto) (x : KeyExchange) (now : ℕ) where
  pub promote-HasJoined :
      (sender : Address) (s : Server) (i k : ℕ)
      → IsValid s
      → i < 4
      → k < 4
      → (challenge_at s i).client_address ≡ sender
      → HasJoined sender (challenge_at s i).shared_key i k (promote h c x now i k s)
  unfolding promote
  promote-HasJoined sender s i k v p q e =
      let entry =
        get_or-set_self s.connections k
          (record (no_connection now) {
            client_address = (challenge_at s i).client_address;
            shared_key = (challenge_at s i).shared_key;
          })
          (no_connection 0) (omega (arith, v.connections_size)) in
      record {
        is_connected = get_or-set_self s.connected k true false (omega (arith, v.connected_size));
        address = ap (λ e. e.client_address) entry ∙ e;
        shared_key = ap (λ e. e.shared_key) entry;
        new_numbers = ap (λ e. e.sequence) entry;
        unchallenged = get_or-set-false s.challenged i;
      }

  send_accepted-HasJoined :
      (sender : Address) (key : List ℕ) (i k : ℕ) (s : Server)
      → HasJoined sender key i k s
      → HasJoined sender key i k (send_accepted h c x now sender k s).0
        × ((send_accepted h c x now sender k s).0.num_connections ≡ s.num_connections)
  unfolding send_accepted
  send_accepted-HasJoined sender key i k s j =
      let (out, only) =
        continue-OnlySent sender
          (write_connection_accepted h c (k % 2 ^ 32) (connection_at s k).shared_key no_buffer) s in
      (
        subst (HasJoined sender key i k) (sym only) (record {
          is_connected = j.is_connected;
          address = j.address;
          shared_key = j.shared_key;
          new_numbers = j.new_numbers;
          unchallenged = j.unchallenged;
        }),
        ap (λ t. t.num_connections) only,
      )

  -- A client that answers its challenge joins: where its challenge stands in slot `i` and the first
  -- free connection is `k`, afterwards the connection `k` is connected, with the client's address
  -- the key that was agreed and numbers from 0, the challenge's slot is free, and one more client is
  -- counted.
  pub handle_challenge_response-HasJoined :
      (sender : Address) (s : Server) (i k : ℕ)
      → IsValid s
      → find_existing_challenge_index sender s ≡ pos i
      → find_free_connection_index s ≡ pos k
      → let t = (handle_challenge_response h c x now sender s).0 in
        HasJoined sender (resolved (challenge_at s i)).shared_key i k t
        × (t.num_connections ≡ add_one_ℤ s.num_connections)
  unfolding handle_challenge_response
  handle_challenge_response-HasJoined sender s i k v there free =
      rw (there, free) (joined.0, joined.1 ∙ counted)
    where
      p : (i < 4) × ((challenge_at s i).client_address ≡ sender)
      p = found_challenge sender s i there

      q : k < 4
      q = found_connection s k free

      s' : Server
      s' = resolve i s

      kept :
          (challenge_at s' i ≡ resolved (challenge_at s i))
          × ((challenge_at s' i).client_address ≡ sender)
      kept = (let same = resolve-challenge s i v p.0 in (same.0, same.1 ∙ p.1))

      ready :
          HasJoined sender (resolved (challenge_at s i)).shared_key i k (promote h c x now i k s')
      ready =
          subst (λ key. HasJoined sender key i k (promote h c x now i k s'))
            (ap (λ e. e.shared_key) kept.0)
            (promote-HasJoined sender s' i k (resolve-Keeps i v) p.0 q kept.1)

      joined :
          HasJoined sender
            (resolved (challenge_at s i)).shared_key
            i
            k
            (send_accepted h c x now sender k (promote h c x now i k s')).0
          × ((send_accepted h c x now sender k (promote h c x now i k s')).0.num_connections
              ≡ (promote h c x now i k s').num_connections)
      joined =
          send_accepted-HasJoined sender (resolved (challenge_at s i)).shared_key i k
            (promote h c x now i k s') ready

      counted : (promote h c x now i k s').num_connections ≡ add_one_ℤ s.num_connections
      counted = unfold promote resolve in refl
