-- ===== src/Server/Accepting.antt =====
-- What a challenge response that arrives makes of the server.
use game_network.Base.{
  ℕ, zero, suc, ◌+◌, ◌-◌, ◌%◌, ◌^◌, ◌<◌, ◌≡◌, refl, ap, ◌∙◌, arith, Bool, true, false, ◌&&◌, List,
  [], ◌∷◌, ◌++◌, Option, none, some, get_or, set, Result, ok, subst, ◌≤◌,
}
use game_network.Base.Int.{pos, is_positive, add_one_ℤ}
use game_network.Platform.{Host, Crypto, KeyExchange}
use game_network.Address.{Address, same_address}
use game_network.Packet.{challenge_response, connection_accepted}
use game_network.Packet.Header.{header, length-header}
use game_network.Packet.Signed.{signed, length-signed}
use game_network.Packet.Control.{accepted_text, write_connection_accepted-sent, verify-bare}
use game_network.Base.{length-append}
use game_network.Base.Bytes.{be_bytes, length-be_bytes}
use game_network.Socket.Wire.{slack_of, load-written}
use game_network.Server.{
  Server, ChallengeInfo, first_index, find_existing_connection_index, find_existing_challenge_index,
  find_free_connection_index, challenge_at, connection_at, no_challenge, resolve, resolved, send,
}
use game_network.Server.Handlers.{handle_challenge_response, promote, send_accepted}
use game_network.Server.Listen.{listen, identify, dispatch, hear_response, in_lobby, nothing_heard}
use game_network.Server.Invariant.{IsValid, resolve-Keeps}
use game_network.Server.Joining.{
  HasJoined, promote-HasJoined, resolve-challenge, found_challenge, found_connection,
  handle_challenge_response-HasJoined,
}
use game_network.Server.Challenging.{listen_lem}

first_index-eq :
    (left i : ℕ) (f g : ℕ → Bool)
    → ((j : ℕ) → f j ≡ g j)
    → first_index left i f ≡ first_index left i g
unfolding first_index
first_index-eq zero i f g e = refl
first_index-eq (suc left) i f g e = rw (e i, first_index-eq left (i + 1) f g e) refl

resolved-address : (e : ChallengeInfo) → (resolved e).client_address ≡ e.client_address
resolved-address e = of_future e.shared_key_future
  where
    of_future :
        (f : Option (List ℕ))
        → (resolved (record e { shared_key_future = f })).client_address ≡ e.client_address
    of_future none = refl
    of_future (some key) = refl

resolved-again : (e : ChallengeInfo) → (resolved (resolved e)).shared_key ≡ (resolved e).shared_key
resolved-again e = of_future e.shared_key_future
  where
    of_future :
        (f : Option (List ℕ))
        → (resolved (resolved (record e { shared_key_future = f }))).shared_key
          ≡ (resolved (record e { shared_key_future = f })).shared_key
    of_future none = refl
    of_future (some key) = refl

set-resolved :
    (d : ChallengeInfo) (xs : List ChallengeInfo) (i j : ℕ)
    → (get_or (set xs i (resolved (get_or xs i d))) j d).client_address
      ≡ (get_or xs j d).client_address
set-resolved d [] i j = refl
set-resolved d (e ∷ xs) zero zero = resolved-address e
set-resolved d (e ∷ xs) zero (suc j) = refl
set-resolved d (e ∷ xs) (suc i) zero = refl
set-resolved d (e ∷ xs) (suc i) (suc j) = set-resolved d xs i j

-- To wait for a key moves no challenge.
pub find_existing_challenge_index-resolve :
    (a : Address) (i : ℕ) (s : Server)
    → find_existing_challenge_index a (resolve i s) ≡ find_existing_challenge_index a s
unfolding find_existing_challenge_index resolve
find_existing_challenge_index-resolve a i s = first_index-eq 4 0 _ _ (λ j.
    ap (λ b. get_or s.challenged j false && same_address b a)
      (set-resolved (no_challenge 0) s.challenges i j))

pub find_free_connection_index-resolve :
    (i : ℕ) (s : Server) → find_free_connection_index (resolve i s) ≡ find_free_connection_index s
unfolding find_free_connection_index resolve
find_free_connection_index-resolve i s = refl

-- A key that has been waited for is there.
pub resolve-key :
    (s : Server) (i : ℕ)
    → IsValid s
    → i < 4
    → (resolved (challenge_at (resolve i s) i)).shared_key
      ≡ (resolved (challenge_at s i)).shared_key
resolve-key s i v p =
    ap (λ (e : ChallengeInfo). (resolved e).shared_key) (resolve-challenge s i v p).0
    ∙ resolved-again (challenge_at s i)

module _ (h : Host) (c : Crypto) (x : KeyExchange) (now : ℕ) where
  module _ (from : Address) (s : Server) (i k : ℕ) where
    -- The key of the challenge.
    abbrev pub agreed : List ℕ
    agreed = (resolved (challenge_at s i)).shared_key

    abbrev pub accepted_wire : List ℕ
    accepted_wire = signed h c agreed (accepted_text h c (k % 2 ^ 32))

    abbrev promoted : Server
    promoted = promote h c x now i k (resolve i s)

    -- The server that has accepted the client.
    abbrev pub accepting : Server
    accepting = record promoted { sent = s.sent ++ (from, accepted_wire) ∷ [] }

    send_accepted-accepting :
        c.hmac_size < 2 ^ 31 - 9
        → (connection_at promoted k).shared_key ≡ agreed
        → send_accepted h c x now from k promoted ≡ (accepting, ok tt)
    unfolding send_accepted send promote resolve
    send_accepted-accepting small key =
        rw
          (
            key,
            write_connection_accepted-sent h c (k % 2 ^ 32) agreed (omega arith) small,
            load-written accepted_wire (
                omega (
                  arith,
                  small,
                  length-signed h c agreed (accepted_text h c (k % 2 ^ 32)),
                  length-append (header connection_accepted) (be_bytes 4 (k % 2 ^ 32)),
                  length-header connection_accepted,
                  length-be_bytes 4 (k % 2 ^ 32),
                )),
          )
          refl

    pub handle_challenge_response-accepting :
        c.hmac_size < 2 ^ 31 - 9
        → IsValid s
        → find_existing_challenge_index from s ≡ pos i
        → find_free_connection_index s ≡ pos k
        → handle_challenge_response h c x now from s ≡ (accepting, ok tt)
    unfolding handle_challenge_response
    handle_challenge_response-accepting small v there free =
        let (low, sender) = found_challenge from s i there in
        let (same, address) = resolve-challenge s i v low in
        let joined =
          promote-HasJoined h c x now from (resolve i s) i k (resolve-Keeps i v) low
            (found_connection s k free) (address ∙ sender) in
        rw (there, free)
          (send_accepted-accepting small (joined.shared_key ∙ ap (λ e. e.shared_key) same))

  pub accepting-HasJoined :
      (from : Address) (s : Server) (i k : ℕ)
      → c.hmac_size < 2 ^ 31 - 9
      → IsValid s
      → find_existing_challenge_index from s ≡ pos i
      → find_free_connection_index s ≡ pos k
      → HasJoined from (agreed from s i k) i k (accepting from s i k)
        × ((accepting from s i k).num_connections ≡ add_one_ℤ s.num_connections)
  accepting-HasJoined from s i k small v there free =
      subst
        (λ (r : Server × Result (Unit {0})).
          HasJoined from (agreed from s i k) i k r.0
          × (r.0.num_connections ≡ add_one_ℤ s.num_connections))
        (handle_challenge_response-accepting from s i k small v there free)
        (handle_challenge_response-HasJoined h c x now from s i k v there free)

  -- A response that is signed with the key of the sender's challenge makes the sender join.
  pub listen-accepting :
      (p_size : ℕ) (from : Address) (s : Server) (i k : ℕ)
      → c.hmac_size + 9 ≤ 1024
      → IsValid s
      → in_lobby s ≡ true
      → is_positive (find_existing_connection_index from s) ≡ false
      → find_existing_challenge_index from s ≡ pos i
      → find_free_connection_index s ≡ pos k
      → listen h c x now p_size
          (some (from, signed h c (agreed from s i k) (header challenge_response)))
          s
        ≡ (accepting from (resolve i s) i k, ok nothing_heard)
  unfolding identify dispatch hear_response
  listen-accepting p_size from s i k small v lobby stranger there free =
      let key = agreed from s i k in
      let wire = signed h c key (header challenge_response) in
      let low = (found_challenge from s i there).0 in
      let (same, address) = resolve-challenge s i v low in
      listen_lem h c x now p_size from wire s _
        (omega (
          arith,
          length-signed h c key (header challenge_response),
          length-header challenge_response,
        ))
        (rw
          (
            stranger,
            there,
            ap (λ e. e.shared_key) same,
            verify-bare h c key challenge_response (slack_of h wire) tt (omega arith),
            lobby,
            handle_challenge_response-accepting from (resolve i s) i k (omega arith)
                (resolve-Keeps i v) (find_existing_challenge_index-resolve from i s ∙ there)
                (find_free_connection_index-resolve i s ∙ free),
          )
          refl)
