-- ===== src/Server/Preservation.antt =====
-- What the server's handlers can do to the server: which changes they are made of, for a predicate
-- that each of the changes keeps.
use game_network.Base.{
  ℕ, zero, suc, ◌+◌, ◌%◌, ◌^◌, ◌≡◌, refl, Bool, true, false, List, Option, none, some, get_or, set,
  take, if◌then◌else◌, Bool-cases, inl, inr, ◌⊎◌, arith,
}
use game_network.Base.Int.{ℤ, pos, negsuc, is_positive, is_index, to_index, to_unsigned}
use game_network.Base.Methods.{Leads, continue-Leads, ◌>>◌, modify}
use game_network.Base.Outcomes.{continue_yielded-Leads}
use game_network.Platform.{Host, Crypto, KeyExchange}
use game_network.Address.{Address}
use game_network.Buffer.{Buffer, no_buffer, load}
use game_network.Crc.{Statics, init_table}
use game_network.Packet.Filling.{write_challenge-Yields}
use game_network.Packet.{
  write_challenge, write_connection_accepted, write_disconnect, write_connection_data,
}
use game_network.Server.{
  Server, ServerState, send, send_bytes, resolve, remove_client, find_existing_connection_index,
  find_existing_challenge_index, find_free_connection_index, find_free_challenge_index,
  challenge_at, connection_at, ConnectionInfo,
}
use game_network.Server.Handlers.{
  put_challenge, start_task, choose_challenge, challenge_chosen, send_challenge,
  handle_connection_request, promote, send_accepted, handle_challenge_response, send_times,
  kick_with, kick_client, send_game_data, propagate_loop,
}

-- The table of the checksum stays as it is, or is filled.
abbrev pub Fills : Statics → Statics → Type 0
Fills s r = (r ≡ s) ⊎ (r ≡ init_table s)

-- A switch of the state keeps `P`.
abbrev pub Switches : (Server → Type 0) → Type 0
Switches P = (s : Server) (state : ServerState) → P s → P (record s { state = state })

-- Each change of the server but those keeps `P`. A slot is given to a client where it is free.
pub record Carries (h : Host) (c : Crypto) (x : KeyExchange) (now : ℕ) (P : Server → Type 0)
    : Type 0 where
  pub under_statics :
      (s : Server) (r : Statics) → Fills s.statics r → P s → P (record s { statics = r })
  pub under_sent : (s : Server) (out : List (Address × List ℕ)) → P s → P (record s { sent = out })
  pub under_callback : (s : Server) (b : Bool) → P s → P (record s { has_callback = b })
  pub under_connection :
      (s : Server) (i : ℕ) (e : ConnectionInfo)
      → P s
      → P (record s { connections = set s.connections i e })
  pub under_resolve : (s : Server) (i : ℕ) → P s → P (resolve i s)
  pub under_put :
      (s : Server) (sender : Address) (key : List ℕ)
      → P s
      → P (put_challenge h c x now 1 sender key s)
  pub under_start : (s : Server) (i : ℕ) → P s → P (start_task h c x now i s)
  pub under_promote :
      (s : Server) (i n : ℕ)
      → find_free_connection_index s ≡ pos n
      → P s
      → P (promote h c x now i n s)
  pub under_remove : (s : Server) (a : Address) → P s → P (remove_client now a s)

-- The value of an index.
pub is_index-eq : (z : ℤ) → is_index z ≡ true → z ≡ pos (to_index z)
is_index-eq (pos n) e = refl
is_index-eq (negsuc n) e = ground arith

module _ (h : Host) (c : Crypto) (x : KeyExchange) (now : ℕ) (P : Server → Type 0)
    (carries : Carries h c x now P) where
  send_bytes-Keeps : (a : Address) (bytes : Option (List ℕ)) → Leads P P (send_bytes a bytes)
  send_bytes-Keeps a none s p = p
  send_bytes-Keeps a (some bytes) s p = carries.under_sent s _ p

  send-Keeps : (a : Address) (b : Buffer) → Leads P P (send a b)
  unfolding send
  send-Keeps a b = send_bytes-Keeps a (load 0 (to_unsigned b.size) b.memory)

  send_challenge-Keeps : (sender : Address) (i : ℕ) → Leads P P (send_challenge h c x now sender i)
  unfolding send_challenge
  send_challenge-Keeps sender i s p =
      let t = start_task h c x now i s in
      let q = carries.under_start s i p in
      continue_yielded-Leads P P (λ r. r.1 ≡ init_table t.statics)
        (write_challenge h c (challenge_at t i).server_public_key t.statics no_buffer)
        (λ r s₁. send sender r.0 (record s₁ { statics = r.1 }))
        (write_challenge-Yields h c (challenge_at t i).server_public_key t.statics no_buffer)
        (λ u w. w) (λ r e. send-Keeps sender r.0 _ (carries.under_statics t r.1 (inr e) q)) q

  challenge_chosen-Keeps :
      (sender : Address) (o : Option ℕ) → Leads P P (challenge_chosen h c x now sender o)
  challenge_chosen-Keeps sender none = λ s p. p
  challenge_chosen-Keeps sender (some i) = send_challenge-Keeps sender i

  choose_challenge-Keeps :
      (sender : Address) (key : List ℕ) (s : Server)
      → P s
      → P (choose_challenge h c x now sender key s).0
  unfolding choose_challenge
  choose_challenge-Keeps sender key s p =
      elim (Bool-cases (is_index (find_existing_challenge_index sender s))) [
        | inl e ↦ rw e p
        | inr e ↦ elim (Bool-cases (is_index (find_free_challenge_index s))) [
          | inl f ↦ rw (e, f) (carries.under_put s sender key p)
          | inr f ↦ rw (e, f) p
        ]
      ]

  pub handle_connection_request-Keeps :
      (key : List ℕ) (sender : Address) → Leads P P (handle_connection_request h c x now key sender)
  unfolding handle_connection_request
  handle_connection_request-Keeps key sender s p =
      challenge_chosen-Keeps sender (choose_challenge h c x now sender key s).1
        (choose_challenge h c x now sender key s).0 (choose_challenge-Keeps sender key s p)

  send_accepted-Keeps : (sender : Address) (n : ℕ) → Leads P P (send_accepted h c x now sender n)
  unfolding send_accepted
  send_accepted-Keeps sender n s p =
      continue-Leads P P
        (write_connection_accepted h c (n % 2 ^ 32) (connection_at s n).shared_key no_buffer)
        (λ b. send sender b) (λ t q. q) (λ b. send-Keeps sender b) p

  pub handle_challenge_response-Keeps :
      (sender : Address) → Leads P P (handle_challenge_response h c x now sender)
  unfolding handle_challenge_response
  handle_challenge_response-Keeps sender s p =
      elim (Bool-cases (is_index (find_existing_challenge_index sender s))) [
        | inl e ↦ elim (Bool-cases (is_index (find_free_connection_index s))) [
          | inl f ↦ rw (e, f) (accepted f)
          | inr f ↦ rw (e, f) (carries.under_resolve s i p)
        ]
        | inr e ↦ rw e p
      ]
    where
      i : ℕ
      i = to_index (find_existing_challenge_index sender s)

      n : ℕ
      n = to_index (find_free_connection_index s)

      accepted :
          is_index (find_free_connection_index s) ≡ true
          → P (send_accepted h c x now sender n (promote h c x now i n (resolve i s))).0
      accepted f =
          send_accepted-Keeps sender n _ (
            carries.under_promote (resolve i s) i n (is_index-eq _ f) (carries.under_resolve s i p))

  send_times-Keeps : (n : ℕ) (a : Address) (b : Buffer) → Leads P P (send_times h c x now n a b)
  unfolding send_times
  send_times-Keeps zero a b = λ s p. p
  send_times-Keeps (suc n) a b = λ s p.
      continue-Leads P P (send a b s).1 (λ _. send_times h c x now n a b) (λ t q. q)
        (λ _. send_times-Keeps n a b) (send-Keeps a b s p)

  kick_with-Keeps :
      (a client : Address) (key : List ℕ) → Leads P P (kick_with h c x now a client key)
  unfolding kick_with
  kick_with-Keeps a client key s p =
      continue-Leads P P (write_disconnect h c key no_buffer)
        (λ b. do send_times h c x now 10 client b; modify (remove_client now a)) (λ t q. q)
        (λ b t q.
          continue-Leads P P (send_times h c x now 10 client b t).1
            (λ _. modify (remove_client now a)) {s = (send_times h c x now 10 client b t).0}
            (λ u r. r) (λ _ u r. carries.under_remove u a r) (send_times-Keeps 10 client b t q))
        p

  pub kick_client-Keeps : (a : Address) → Leads P P (kick_client h c x now a)
  unfolding kick_client
  kick_client-Keeps a s p = elim (Bool-cases (is_positive (find_existing_connection_index a s))) [
    | inl e ↦ rw e (kick_with-Keeps a _ _ s p)
    | inr e ↦ elim (Bool-cases (is_positive (find_existing_challenge_index a s))) [
      | inl f ↦
          rw (e, f)
            (kick_with-Keeps a _ _ _
              (carries.under_resolve s (to_index (find_existing_challenge_index a s)) p))
      | inr f ↦ rw (e, f) p
    ]
  ]

  send_game_data-Keeps :
      (i : ℕ) (bytes : List ℕ) (size : ℕ) → Leads P P (send_game_data h c x now i bytes size)
  unfolding send_game_data
  send_game_data-Keeps i bytes size s p =
      continue-Leads P P
        (write_connection_data h c
          (record {
            sequence = counted.sequence;
            game_data_size = size;
            game_data = take size bytes;
          })
          counted.shared_key no_buffer)
        (λ b. send counted.client_address b) (λ t q. q) (λ b. send-Keeps counted.client_address b)
        (carries.under_connection s i _ p)
    where
      counted : ConnectionInfo
      counted =
          connection_at
            (record s {
              connections = set s.connections i (record (connection_at s i) {
                sequence = ((connection_at s i).sequence + 1) % 2 ^ 16;
              });
            })
            i

  pub propagate_loop-Keeps :
      (left i : ℕ) (bytes : List ℕ) (size : ℕ)
      → Leads P P (propagate_loop h c x now left i bytes size)
  unfolding propagate_loop
  propagate_loop-Keeps zero i bytes size = λ s p. p
  propagate_loop-Keeps (suc left) i bytes size = λ s p.
      continue-Leads P P
        ((if get_or s.connected i false
            then send_game_data h c x now i bytes size
            else modify (λ s. s))
          s).1
        (λ _. propagate_loop h c x now left (i + 1) bytes size) (λ t q. q)
        (λ _. propagate_loop-Keeps left (i + 1) bytes size) (round (get_or s.connected i false) s p)
    where
      round :
          (there : Bool)
          → Leads P P (if there then send_game_data h c x now i bytes size else modify (λ s. s))
      round true = send_game_data-Keeps i bytes size
      round false = λ s p. p
