-- ===== src/Handshake/Connects.antt =====
-- The handshake of a client and a server.
use game_network.Base.{
  ℕ, ◌%◌, ◌/◌, ◌^◌, ◌≡◌, refl, sym, ap, ◌∙◌, arith, Bool, true, false, ◌||◌, List, [], ◌∷◌, ◌++◌,
  Option, some, take, Result, ok, subst, ap₂, ◌≤◌, ◌+◌,
}
use game_network.Base.Int.{pos, negsuc, is_positive, add_one_ℤ}
use game_network.Platform.{Host, Crypto, KeyExchange, KeySizes}
use game_network.Address.{Address, same_address}
use game_network.Address.Octets.{same_address_iff}
use game_network.Crc.Table
use game_network.Crc.Table.{init_table-IsFilled}
use game_network.Buffer.{to_int}
use game_network.Client.{
  Client, is_disconnected, is_connected, broadcast_address, connect, respond_challenge,
  generate_keys,
}
use game_network.Client.Joining
use game_network.Server.{
  Server, ChallengeInfo, find_existing_connection_index, find_existing_challenge_index,
  find_free_challenge_index, find_free_connection_index, challenge_at, resolve, resolved,
}
use game_network.Server.Listen.{Heard, in_lobby}
use game_network.Server.Listen.{listen as server_listen}
use game_network.Client.Listen.{listen as client_listen}
use game_network.Server.Handlers.{put_challenge, start_task}
use game_network.Server.Invariant.{IsValid, resolve-Keeps}
use game_network.Server.Hearing.{listen-IsValid}
use game_network.Packet.{challenge_response}
use game_network.Packet.Header.{header}
use game_network.Packet.Signed.{signed}
use game_network.Packet.Control.{accepted_text}
use game_network.Server.Joining.{HasJoined, found_connection}
use game_network.Server.Challenging
use game_network.Server.Accepting
use game_network.Handshake.{last, arriving, server_hears, client_hears, handshake}

pub last-snoc :
    (log : List (Address × List ℕ)) (d : Address × List ℕ) → last (log ++ d ∷ []) ≡ some d
last-snoc [] d = refl
last-snoc (e ∷ []) d = refl
last-snoc (e ∷ e' ∷ log) d = last-snoc (e' ∷ log) d

pub arriving-snoc :
    (to from : Address) (log : List (Address × List ℕ)) (a : Address) (bytes : List ℕ)
    → same_address a to || same_address a broadcast_address ≡ true
    → arriving to from (log ++ (a, bytes) ∷ []) ≡ some (from, bytes)
arriving-snoc to from log a bytes e = rw (last-snoc log (a, bytes), e)

module _ (h : Host) (c : Crypto) (x : KeyExchange) (sizes : KeySizes c x) (now p_size : ℕ)
    (ca sa : Address) (cl : Client) (sv : Server) (v : Table.IsValid cl.statics)
    (w : Table.IsValid sv.statics) where
  abbrev filled : Server
  filled = Challenging.filled h c x sizes now sv

  abbrev challenge_wire : List ℕ
  challenge_wire =
      Challenging.challenge_wire h c x sizes now ca (x.public_of cl.entropy) filled
        (Challenging.filled-IsValid h c x sizes now sv w)

  -- The stations of the handshake.
  abbrev cl₁ : Client
  cl₁ = Joining.requested h c x sizes cl v

  abbrev sv₁ : Server
  sv₁ =
      Challenging.challenging h c x sizes now ca (x.public_of cl.entropy)
        (Challenging.filled h c x sizes now sv) (Challenging.filled-IsValid h c x sizes now sv w)

  abbrev cl₂ : Client
  cl₂ = Joining.challenged h c x sizes now now p_size sa cl₁ sv.entropy

  abbrev cl₃ : Client
  cl₃ = Joining.responded h c x sizes cl₂

  station₁ : is_disconnected cl.state ≡ true → connect h c x cl ≡ (cl₁, ok tt)
  station₁ = Joining.connect-requested h c x sizes cl v

  station₂ :
      (j : ℕ)
      → IsValid sv
      → in_lobby sv ≡ true
      → is_positive (find_existing_connection_index ca sv) ≡ false
      → find_existing_challenge_index ca sv ≡ negsuc 0
      → find_free_challenge_index sv ≡ pos j
      → server_hears h c x now p_size ca sa cl₁ sv ≡ sv₁
  station₂ j valid lobby stranger new free =
      ap (λ (d : Option (Address × List ℕ)). (server_listen h c x now p_size d sv).0)
        (arriving-snoc sa ca cl.sent broadcast_address (Joining.request_wire h c x sizes cl v)
          (ground arith))
      ∙ ap (λ (r : Server × Result Heard). r.0)
          (Challenging.listen-challenging h c x sizes now p_size ca sv cl.entropy j cl.statics v w
            valid.challenges_size lobby stranger new free)

  for_client : (b : Bool) → same_address ca ca || b ≡ true
  for_client b = rw ((same_address_iff ca ca).0.1 refl)

  station₃ : client_hears h c x now p_size ca sa sv₁ cl₁ ≡ cl₂
  unfolding put_challenge start_task
  station₃ =
      ap (λ (d : Option (Address × List ℕ)). (client_listen h c x now now p_size d cl₁).0)
        (arriving-snoc ca sa sv.sent ca challenge_wire (for_client _))
      ∙ ap (λ (r : Client × Result Heard). r.0)
          (Joining.listen-challenged h c x sizes now now p_size sa cl₁ sv.entropy filled.statics
            (Challenging.filled-IsValid h c x sizes now sv w) (init_table-IsFilled cl.statics v).0
            refl)

  station₄ : (respond_challenge h c x cl₂).0 ≡ cl₃
  station₄ =
      ap (λ (r : Client × Result (Unit {0})). r.0)
        (Joining.respond_challenge-responded h c x sizes cl₂)

  for_server : (b : Bool) → same_address sa sa || b ≡ true
  for_server b = rw ((same_address_iff sa sa).0.1 refl)

  -- The keys of the two ends.
  same_key : IsValid sv → cl₂.shared_key ≡ (resolved (challenge_at sv₁ 1)).shared_key
  unfolding generate_keys
  same_key valid =
      ap (λ l. x.sha256 (take (c.public_key_size / 8) l)) (x.agree sv.entropy cl.entropy)
      ∙ sym (
          ap (λ (e : ChallengeInfo). (resolved e).shared_key)
            (Challenging.started_entry h c x sizes now ca (x.public_of cl.entropy) filled
              valid.challenges_size))

  lobby₁ : in_lobby sv ≡ true → in_lobby sv₁ ≡ true
  unfolding put_challenge start_task
  lobby₁ e = e

  stranger₁ :
      is_positive (find_existing_connection_index ca sv) ≡ false
      → is_positive (find_existing_connection_index ca sv₁) ≡ false
  unfolding put_challenge start_task find_existing_connection_index
  stranger₁ e = e

  room₁ : (k : ℕ) → find_free_connection_index sv ≡ pos k → find_free_connection_index sv₁ ≡ pos k
  unfolding put_challenge start_task find_free_connection_index
  room₁ k e = e

  there₁ :
      IsValid sv
      → find_existing_challenge_index ca sv ≡ negsuc 0
      → find_existing_challenge_index ca sv₁ ≡ pos 1
  unfolding find_existing_challenge_index
  there₁ valid new =
      Challenging.find_existing_challenge_index-started h c x sizes now ca (x.public_of cl.entropy)
        filled valid.challenges_size valid.challenged_size new

  module _ (j k : ℕ) (valid : IsValid sv) (lobby : in_lobby sv ≡ true)
      (stranger : is_positive (find_existing_connection_index ca sv) ≡ false)
      (new : find_existing_challenge_index ca sv ≡ negsuc 0)
      (free : find_free_challenge_index sv ≡ pos j)
      (room : find_free_connection_index sv ≡ pos k) where
    valid₁ : IsValid sv₁
    valid₁ =
        subst IsValid (station₂ j valid lobby stranger new free)
          (listen-IsValid h c x now p_size (arriving sa ca cl₁.sent) sv valid)

    abbrev agreed : List ℕ
    agreed = (resolved (challenge_at sv₁ 1)).shared_key

    abbrev pub sv₂ : Server
    sv₂ = Accepting.accepting h c x now ca (resolve 1 sv₁) 1 k

    small : c.hmac_size + 9 ≤ 1024
    small = omega (arith, sizes.small)

    station₅ : server_hears h c x now p_size ca sa cl₃ sv₁ ≡ sv₂
    station₅ =
        ap (λ (d : Option (Address × List ℕ)). (server_listen h c x now p_size d sv₁).0)
          (arriving-snoc sa ca cl₂.sent sa (signed h c cl₂.shared_key (header challenge_response))
            (for_server _))
        ∙ ap
            (λ (l : List ℕ).
              (server_listen h c x now p_size (some (ca, signed h c l (header challenge_response)))
                sv₁).0)
            (same_key valid)
        ∙ ap (λ (r : Server × Result Heard). r.0)
            (Accepting.listen-accepting h c x now p_size ca sv₁ 1 k small valid₁ (lobby₁ lobby)
              (stranger₁ stranger) (there₁ valid new) (room₁ k room))

    abbrev pub cl₄ : Client
    cl₄ = Joining.accepted h c x sizes now now p_size sa cl₃ (k % 2 ^ 32)

    keys : (resolved (challenge_at (resolve 1 sv₁) 1)).shared_key ≡ agreed
    keys = Accepting.resolve-key sv₁ 1 valid₁ (omega arith)

    station₆ : client_hears h c x now p_size ca sa sv₂ cl₃ ≡ cl₄
    station₆ =
        ap (λ (d : Option (Address × List ℕ)). (client_listen h c x now now p_size d cl₃).0)
          (arriving-snoc ca sa (resolve 1 sv₁).sent ca
            (Accepting.accepted_wire h c x now ca (resolve 1 sv₁) 1 k) (for_client _))
        ∙ ap
            (λ (l : List ℕ).
              (client_listen h c x now now p_size
                (some (sa, signed h c l (accepted_text h c (k % 2 ^ 32)))) cl₃).0)
            (keys ∙ sym (same_key valid))
        ∙ ap (λ (r : Client × Result Heard). r.0)
            (Joining.listen-accepted h c x sizes now now p_size sa cl₃ (k % 2 ^ 32) (omega arith)
              refl (omega arith))

    -- How it ends for the two.
    abbrev Done : Client → Server → Type 0
    Done cl' sv' =
        (is_connected cl'.state ≡ true)
        × (cl'.index ≡ pos k)
        × (cl'.ack ≡ cl.ack)
        × (cl'.server_address ≡ sa)
        × HasJoined ca cl'.shared_key 1 k sv'
        × (sv'.num_connections ≡ add_one_ℤ sv.num_connections)

    joins : HasJoined ca agreed 1 k sv₂ × (sv₂.num_connections ≡ add_one_ℤ sv.num_connections)
    unfolding put_challenge start_task resolve
    joins =
        let (joined, counted) =
          Accepting.accepting-HasJoined h c x now ca (resolve 1 sv₁) 1 k (omega (arith, small))
            (resolve-Keeps 1 valid₁)
            (Accepting.find_existing_challenge_index-resolve ca 1 sv₁ ∙ there₁ valid new)
            (Accepting.find_free_connection_index-resolve 1 sv₁ ∙ room₁ k room) in
        (subst (λ (l : List ℕ). HasJoined ca l 1 k sv₂) keys joined, counted)

    own_index : to_int (k % 2 ^ 32) ≡ pos k
    own_index = let low = found_connection sv k room in ground arith

    done : Done cl₄ sv₂
    unfolding generate_keys
    done = (
      refl,
      own_index,
      refl,
      refl,
      subst (λ (l : List ℕ). HasJoined ca l 1 k sv₂) (sym (same_key valid)) joins.0,
      joins.1,
    )

    -- The two ends behind the last station.
    pub stations :
        is_disconnected cl.state ≡ true → handshake h c x now p_size ca sa cl sv ≡ (cl₄, sv₂)
    unfolding handshake
    stations e =
        let e₁ : (connect h c x cl).0 ≡ cl₁ =
          ap (λ (r : Client × Result (Unit {0})). r.0) (station₁ e) in
        let hears = server_hears h c x now p_size ca sa in
        let learns = client_hears h c x now p_size ca sa in
        let e₂ = ap (λ (a : Client). hears a sv) e₁ ∙ station₂ j valid lobby stranger new free in
        let e₃ = ap₂ learns e₂ e₁ ∙ station₃ in
        let e₄ = ap (λ (a : Client). (respond_challenge h c x a).0) e₃ ∙ station₄ in
        let e₅ = ap₂ hears e₄ e₂ ∙ station₅ in
        ap₂ (λ (a : Client) (b : Server). (a, b)) (ap₂ learns e₅ e₄ ∙ station₆) e₅

    -- The handshake comes to an end: a disconnected client at an address that the server does not know
    -- yet, and a valid server in the lobby with a free challenge and `k` as its first free connection,
    -- end with the client connected to the server, with the index `k` and its old `m_ack`, and with
    -- the server's connection `k` at the client's address, with the client's key and numbers from 0.
    -- One more client is counted.
    pub handshake-connects :
        is_disconnected cl.state ≡ true
        → let (cl', sv') = handshake h c x now p_size ca sa cl sv in
          (is_connected cl'.state ≡ true)
          × (cl'.index ≡ pos k)
          × (cl'.ack ≡ cl.ack)
          × (cl'.server_address ≡ sa)
          × HasJoined ca cl'.shared_key 1 k sv'
          × (sv'.num_connections ≡ add_one_ℤ sv.num_connections)
    handshake-connects e = subst (λ (r : Client × Server). Done r.0 r.1) (sym (stations e)) done
