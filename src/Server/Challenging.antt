-- ===== src/Server/Challenging.antt =====
-- What a connection request makes of the server's tables.
use game_network.Base.{
  ℕ, ◌≡◌, refl, sym, ap, ◌∙◌, arith, Bool, true, false, ◌&&◌, List, [], ◌∷◌, ◌++◌, some, get_or,
  set, length, length-set, inl, inr, ok, ◌≤◌,
}
use game_network.Base.Int.{pos, negsuc, is_positive}
use game_network.Platform.{Host, Crypto, KeyExchange, KeySizes}
use game_network.Address.{Address, same_address, no_address}
use game_network.Address.Octets.{same_address_iff}
use game_network.Crc.{Statics, init_table}
use game_network.Crc.Table
use game_network.Crc.Table.{init_table-IsFilled}
use game_network.Packet.{challenge, connection_request}
use game_network.Packet.Keys
use game_network.Base.Methods.{◌>>=◌}
use game_network.Buffer.Cursor.{cursor}
use game_network.Server.{
  Server, ChallengeInfo, first_index, find_existing_connection_index, find_existing_challenge_index,
  find_free_challenge_index, challenge_at, no_challenge, send,
}
use game_network.Server.Handlers.{
  put_challenge, start_task, choose_challenge, send_challenge, handle_connection_request,
  task_value,
}
use game_network.Server.Listen.{
  Heard, listen, identify, identify_unknown, dispatch, hear_request, in_lobby, nothing_heard,
  caught,
}
use game_network.Socket.Wire.{slack_of, receive_into-cursor}
use game_network.Server.Slots.{first_index-first, get_or-set_self, get_or-set_ne}

module _ (h : Host) (c : Crypto) (x : KeyExchange) (now : ℕ) where
  -- A call that throws nothing has the outcome of its body.
  pub listen_lem :
      (p_size : ℕ) (from : Address) (wire : List ℕ) (s t : Server) {r : Heard}
      → length wire ≤ 1024
      → (do
        (k, b) ← identify h c x now from (cursor [] wire (slack_of h wire))
        dispatch h c x now p_size from k b)
          s
        ≡ (t, ok r)
      → listen h c x now p_size (some (from, wire)) s ≡ (t, ok r)
  unfolding listen
  listen_lem p_size from wire s t {r} fits e =
      rw (receive_into-cursor h no_address from wire fits) (ap caught e)

module _ (h : Host) (c : Crypto) (x : KeyExchange) (sizes : KeySizes c x) (now : ℕ) where
  module _ (from : Address) (key : List ℕ) (s : Server) where
    -- The entry of a new challenge, with its task.
    abbrev pub entry : ChallengeInfo
    entry = record (no_challenge now) {
      client_address = from;
      client_public_key = key;
      server_private_key = x.private_of s.entropy;
      server_public_key = x.public_of s.entropy;
    }

    abbrev pub started : Server
    started = start_task h c x now 1 (put_challenge h c x now 1 from key s)

    abbrev pub challenge_wire : Table.IsValid s.statics → List ℕ
    challenge_wire v = Keys.wire_of h c x sizes s.entropy s.statics v challenge

    -- The server that has sent a challenge.
    abbrev pub challenging : Table.IsValid s.statics → Server
    challenging v = record started {
      statics = init_table s.statics;
      sent = s.sent ++ (from, challenge_wire v) ∷ [];
    }

    placed_entry :
        length s.challenges ≡ 4 → challenge_at (put_challenge h c x now 1 from key s) 1 ≡ entry
    unfolding put_challenge
    placed_entry size = get_or-set_self s.challenges 1 entry (no_challenge 0) (omega (arith, size))

    pub started_entry :
        length s.challenges ≡ 4
        → challenge_at started 1
          ≡ record entry { shared_key_future = some (task_value h c x now entry) }
    unfolding put_challenge start_task
    started_entry size =
        get_or-set_self (set s.challenges 1 entry) 1 _ (no_challenge 0)
          (omega (arith, size, length-set s.challenges 1 entry))
        ∙ ap (λ (e : ChallengeInfo). record e { shared_key_future = some (task_value h c x now e) })
            (placed_entry size)

    pub handle_connection_request-challenging :
        (v : Table.IsValid s.statics) (j : ℕ)
        → length s.challenges ≡ 4
        → find_existing_challenge_index from s ≡ negsuc 0
        → find_free_challenge_index s ≡ pos j
        → handle_connection_request h c x now key from s ≡ (challenging v, ok tt)
    unfolding handle_connection_request choose_challenge send_challenge send
    handle_connection_request-challenging v j size new free =
        rw
          (
            new,
            free,
            ap (λ e. e.server_public_key) (started_entry size),
            Keys.write_challenge-sent h c x sizes s.entropy s.statics v,
            Keys.packet_of-Holds h c x sizes s.entropy s.statics v challenge,
          )
          refl

    passes : Server → ℕ → Bool
    passes t i = get_or t.challenged i false && same_address (challenge_at t i).client_address from

    -- No slot but the second passes.
    others : length s.challenges ≡ 4 → passes started 0 ≡ passes s 0
    unfolding passes put_challenge start_task
    others size =
        rw
          (
            get_or-set_ne s.challenged 1 0 true false (λ e. omega arith),
            get_or-set_ne (set s.challenges 1 entry) 1 0 _ (no_challenge 0) (λ e. omega arith),
            get_or-set_ne s.challenges 1 0 entry (no_challenge 0) (λ e. omega arith),
          )
          refl

    second : length s.challenges ≡ 4 → length s.challenged ≡ 4 → passes started 1 ≡ true
    unfolding passes put_challenge start_task
    second size size' =
        rw
          (
            get_or-set_self s.challenged 1 true false (omega (arith, size')),
            ap (λ e. e.client_address) (started_entry size),
            (same_address_iff from from).0.1 refl,
          )
          refl

    first_fails : find_existing_challenge_index from s ≡ negsuc 0 → passes s 0 ≡ false
    unfolding passes find_existing_challenge_index
    first_fails new = elim (first_index-first 4 0 (passes s)) [
      | inl (k, found, p, q, t, below) ↦
          absurd (let both : pos k ≡ negsuc 0 = sym found ∙ new in cc both)
      | inr (none_found, below) ↦ below 0 (omega arith) (omega arith)
    ]

    pub find_existing_challenge_index-started :
        length s.challenges ≡ 4
        → length s.challenged ≡ 4
        → find_existing_challenge_index from s ≡ negsuc 0
        → find_existing_challenge_index from started ≡ pos 1
    unfolding find_existing_challenge_index passes first_index
    find_existing_challenge_index-started size size' new =
        rw (others size ∙ first_fails new, second size size') refl

  -- The server that has let a request in fills the table of the checksum.
  abbrev pub filled : Server → Server
  filled s = record s { statics = init_table (init_table s.statics) }

  pub filled-IsValid : (s : Server) → Table.IsValid s.statics → Table.IsValid (filled s).statics
  filled-IsValid s v =
      (init_table-IsFilled (init_table s.statics) (init_table-IsFilled s.statics v).0).0

  pub listen-challenging :
      (p_size : ℕ) (from : Address) (s : Server) (n j : ℕ) (r : Statics) (w : Table.IsValid r)
      (v : Table.IsValid s.statics)
      → length s.challenges ≡ 4
      → in_lobby s ≡ true
      → is_positive (find_existing_connection_index from s) ≡ false
      → find_existing_challenge_index from s ≡ negsuc 0
      → find_free_challenge_index s ≡ pos j
      → listen h c x now p_size (some (from, Keys.wire_of h c x sizes n r w connection_request)) s
        ≡ (challenging from (x.public_of n) (filled s) (filled-IsValid s v), ok nothing_heard)
  unfolding identify identify_unknown dispatch hear_request
  listen-challenging p_size from s n j r w v size lobby stranger new free =
      let wire = Keys.wire_of h c x sizes n r w connection_request in
      let slack = slack_of h wire in
      let v' = (init_table-IsFilled s.statics v).0 in
      listen_lem h c x now p_size from wire s _
        (Keys.wire_of-fits h c x sizes n r w connection_request)
        (rw
          (
            stranger,
            new,
            Keys.wire_of-ne h c x sizes n r w connection_request,
            Keys.verify-wire_of h c x sizes n r w (init_table s.statics) v' slack connection_request
                tt Keys.request_byte,
            lobby,
            (Keys.read-wire_of h c x sizes n r w (init_table s.statics) v' slack connection_request
                tt Keys.request_byte).1,
            handle_connection_request-challenging from (x.public_of n) (filled s)
                (filled-IsValid s v) j size (unfold find_existing_challenge_index in new)
                (unfold find_free_challenge_index in free),
          )
          refl)
