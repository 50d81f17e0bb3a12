-- ===== src/Server/Hearing.antt =====
-- What every datagram, and every call of the host's, leaves of the server, for a predicate that
-- each change of the server keeps, and for the shape of the tables.
use game_network.Base.{
  ℕ, refl, Bool, true, false, ◌||◌, List, Option, Result, ok, throws, fault, out_of_range,
  exception_pointer, if◌then◌else◌, Bool-cases, inl, inr,
}
use game_network.Base.Int.{is_positive, is_index, to_index, ℤ_leb}
use game_network.Platform.{Host, Crypto, KeyExchange}
use game_network.Address.{Address, no_address}
use game_network.Buffer.{Buffer}
use game_network.Crc.{Statics, init_table}
use game_network.Packet.{
  PacketType, invalid_packet, connection_request, challenge, challenge_response,
  connection_accepted, connection_data, disconnect, unlisted, verify_packet_crc, read_public_key,
  read_connection_data, ConnectionDataPacket,
}
use game_network.Base.Methods.{Leads, continue-Leads, ◌>>◌, lift}
use game_network.Base.Outcomes.{continue_yielded-Leads}
use game_network.Packet.Filling.{verify_packet_crc-Yields}
use game_network.Socket.{receive_into}
use game_network.Server.{
  Server, game, find_existing_connection_index, find_existing_challenge_index,
}
use game_network.Server.Handlers.{
  new_server, handle_connection_request, handle_challenge_response, kick_client,
  propagate_game_data, switch_to_game,
}
use game_network.Server.Listen.{
  Heard, caught, nothing_heard, in_lobby, identify_unknown, identify, hear_request, hear_response,
  hear_data, hear_disconnect, dispatch, listen,
}
use game_network.Server.Invariant.{IsValid, IsValid-Carries, IsValid-Switches}
use game_network.Server.Preservation.{
  Carries, Fills, Switches, handle_connection_request-Keeps, handle_challenge_response-Keeps,
  kick_client-Keeps, propagate_loop-Keeps,
}

module _ (h : Host) (c : Crypto) (x : KeyExchange) (now : ℕ) (P : Server → Type 0)
    (carries : Carries h c x now P) where
  caught-Keeps : (r : Server × Result Heard) → P r.0 → P (caught r).0
  caught-Keeps (s, ok a) p = p
  caught-Keeps (s, throws out_of_range) p = p
  caught-Keeps (s, throws exception_pointer) p = p
  caught-Keeps (s, fault) p = p

  identify_unknown-Keeps : (b : Buffer) → Leads P P (identify_unknown h c x now b)
  unfolding identify_unknown
  identify_unknown-Keeps b s p =
      let filled = if ℤ_leb b.size 0 then s.statics else init_table s.statics in
      continue_yielded-Leads {A = PacketType × Buffer × Statics} P P (λ found. Fills filled found.2)
        (verify_packet_crc h c filled b) _ (verify_packet_crc-Yields h c filled b) (λ t q. q)
        (λ found e. carries.under_statics (record s { statics = filled }) found.2 e p') p'
    where
      filling : (e : Bool) → Fills s.statics (if e then s.statics else init_table s.statics)
      filling true = inl refl
      filling false = inr refl

      p' : P (record s { statics = if ℤ_leb b.size 0 then s.statics else init_table s.statics })
      p' = carries.under_statics s _ (filling (ℤ_leb b.size 0)) p

  identify-Keeps : (sender : Address) (b : Buffer) → Leads P P (identify h c x now sender b)
  unfolding identify
  identify-Keeps sender b s p =
      elim (Bool-cases (is_positive (find_existing_connection_index sender s))) [
        | inl e ↦ rw e p
        | inr e ↦ elim (Bool-cases (is_index (find_existing_challenge_index sender s))) [
          | inl f ↦
              rw (e, f)
                (carries.under_resolve s (to_index (find_existing_challenge_index sender s)) p)
          | inr f ↦ rw (e, f) (identify_unknown-Keeps b s p)
        ]
      ]

  hear_request-Keeps : (sender : Address) (b : Buffer) → Leads P P (hear_request h c x now sender b)
  unfolding hear_request
  hear_request-Keeps sender b s p = elim (Bool-cases (in_lobby s)) [
    | inl e ↦ rw e (
        continue-Leads P P (read_public_key h c b)
          (λ r. do handle_connection_request h c x now r.0 sender; lift (ok nothing_heard))
          (λ t q. q)
          (λ r t q.
            continue-Leads P P (handle_connection_request h c x now r.0 sender t).1
              (λ _. lift (ok nothing_heard))
              {s = (handle_connection_request h c x now r.0 sender t).0} (λ u w. w) (λ _ u w. w)
              (handle_connection_request-Keeps h c x now P carries r.0 sender t q))
          p)
    | inr e ↦ rw e p
  ]

  hear_response-Keeps : (sender : Address) → Leads P P (hear_response h c x now sender)
  unfolding hear_response
  hear_response-Keeps sender s p = elim (Bool-cases (in_lobby s)) [
    | inl e ↦ rw e (
        continue-Leads P P (handle_challenge_response h c x now sender s).1
          (λ _. lift (ok nothing_heard)) {s = (handle_challenge_response h c x now sender s).0}
          (λ u w. w) (λ _ u w. w) (handle_challenge_response-Keeps h c x now P carries sender s p))
    | inr e ↦ rw e p
  ]

  hear_data-Keeps :
      (p_size : ℕ) (sender : Address) (b : Buffer) → Leads P P (hear_data h c x now p_size sender b)
  unfolding hear_data
  hear_data-Keeps p_size sender b s p = elim (Bool-cases (in_lobby s)) [
    | inl e ↦ rw e p
    | inr e ↦ rw e (
        continue-Leads {A = ConnectionDataPacket × Buffer} P P (read_connection_data h c b) _
          (λ t q. q) (λ r t q. q) p)
  ]

  hear_disconnect-Keeps : (sender : Address) → Leads P P (hear_disconnect h c x now sender)
  unfolding hear_disconnect
  hear_disconnect-Keeps sender s p =
      elim (Bool-cases (
        is_positive (find_existing_connection_index sender s)
        || is_positive (find_existing_challenge_index sender s))) [
          | inl e ↦ rw e (carries.under_remove s sender p)
          | inr e ↦ rw e p
        ]

  dispatch-Keeps :
      (p_size : ℕ) (sender : Address) (t : PacketType) (b : Buffer)
      → Leads P P (dispatch h c x now p_size sender t b)
  unfolding dispatch
  dispatch-Keeps p_size sender connection_request b = hear_request-Keeps sender b
  dispatch-Keeps p_size sender challenge_response b = hear_response-Keeps sender
  dispatch-Keeps p_size sender connection_data b = hear_data-Keeps p_size sender b
  dispatch-Keeps p_size sender disconnect b = hear_disconnect-Keeps sender
  dispatch-Keeps p_size sender invalid_packet b = λ s p. p
  dispatch-Keeps p_size sender challenge b = λ s p. p
  dispatch-Keeps p_size sender connection_accepted b = λ s p. p
  dispatch-Keeps p_size sender (unlisted n) b = λ s p. p

  pub listen-Keeps :
      (p_size : ℕ) (datagram : Option (Address × List ℕ)) (s : Server)
      → P s
      → P (listen h c x now p_size datagram s).0
  unfolding listen
  listen-Keeps p_size datagram s p =
      let sender = (receive_into h no_address datagram).0 in
      let b = (receive_into h no_address datagram).1 in
      caught-Keeps _ (
        continue-Leads P P (identify h c x now sender b s).1
          (λ r. dispatch h c x now p_size sender r.0 r.1) {s = (identify h c x now sender b s).0}
          (λ t q. q) (λ r. dispatch-Keeps p_size sender r.0 r.1) (identify-Keeps sender b s p))

  pub switch_to_game-Keeps : Switches P → (s : Server) → P s → P (switch_to_game h c x now s)
  unfolding switch_to_game
  switch_to_game-Keeps under_state s p =
      carries.under_connection _ 3 _
        (carries.under_connection _ 2 _ (carries.under_connection _ 1 _ (under_state s game p)))

module _ (h : Host) (c : Crypto) (x : KeyExchange) (now : ℕ) where
  -- No datagram disturbs the tables: whatever arrives, or nothing, and whatever the check and the
  -- handlers come to, each of the four arrays keeps its four entries, and the host's own slot stays
  -- connected.
  pub listen-IsValid :
      (p_size : ℕ) (datagram : Option (Address × List ℕ)) (s : Server)
      → IsValid s
      → IsValid (listen h c x now p_size datagram s).0
  listen-IsValid = listen-Keeps h c x now IsValid (IsValid-Carries h c x now)

  pub new_server-IsValid :
      (statics : Statics) (entropy : ℕ) → IsValid (new_server h c x now statics entropy)
  unfolding new_server
  new_server-IsValid statics entropy = record {
    challenges_size = refl;
    connections_size = refl;
    connected_size = refl;
    challenged_size = refl;
    host_connected = refl;
  }

  -- The server starts with tables of four entries and the host's slot connected, and what the host
  -- calls keeps that: a kick, the propagation of game data, and the switch to the game.
  pub host_calls-IsValid :
      (statics : Statics) (entropy : ℕ) (a : Address) (bytes : List ℕ) (size : ℕ) (s : Server)
      → IsValid s
      → IsValid (new_server h c x now statics entropy)
        × IsValid (kick_client h c x now a s).0
        × IsValid (propagate_game_data h c x now bytes size s).0
        × IsValid (switch_to_game h c x now s)
  unfolding propagate_game_data
  host_calls-IsValid statics entropy a bytes size s v = (
    new_server-IsValid statics entropy,
    kick_client-Keeps h c x now IsValid (IsValid-Carries h c x now) a s v,
    propagate_loop-Keeps h c x now IsValid (IsValid-Carries h c x now) 3 1 bytes size s v,
    switch_to_game-Keeps h c x now IsValid (IsValid-Carries h c x now) IsValid-Switches s v,
  )
