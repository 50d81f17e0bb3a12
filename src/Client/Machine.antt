-- ===== src/Client/Machine.antt =====
-- The diagram of the client's states, and the steps that a client takes: its methods' calls in any
-- order, with the threads for `RespondChallenge` at any time.
use game_network.Base.{
  arith, ℕ, ◌+◌, ◌%◌, ◌^◌, take, Bool, true, List, Option, ◌≡◌, refl, sym, Bool-cases, inl, inr, ok,
}
use game_network.Base.Methods.{continue-Leads, modify, lift, ◌>>◌}
use game_network.Platform.{Host, Crypto, KeyExchange}
use game_network.Address.{Address}
use game_network.Buffer.{Buffer, no_buffer}
use game_network.Crc.{Statics}
use game_network.Packet.{
  ConnectionDataPacket, write_connection_request, write_challenge_response, write_connection_data,
}
use game_network.Client.{
  C, send, Client, ClientState, disconnected, sending_request, sending_challenge_response,
  connected, is_disconnected, is_sending_challenge_response, is_connected, connect, send_request,
  generate_keys, respond_challenge, send_response, send_disconnect, send_game_data, send_own_data,
  set_active_timeout, disconnect, destroy_client, handle_challenge, handle_accepted,
  broadcast_address,
}
use game_network.Client.Listen.{listen}
use game_network.Client.Closed.{IsClosed, caught-Leads, send-Leads, send_disconnect-Leads}
use game_network.Client.Hearing.{Carries, listen-Leads}

-- What a datagram can do to the state.
pub data Answers : ClientState → ClientState → Type 0 where
  stays : (a : ClientState) → Answers a a
  leaves : (a : ClientState) → Answers a disconnected
  accepted : Answers sending_challenge_response connected

-- What a step of any kind can do to it.
pub data Edge : ClientState → ClientState → Type 0 where
  answers : (a b : ClientState) → Answers a b → Edge a b
  requests : Edge disconnected sending_request
  responds : (a : ClientState) → Edge a sending_challenge_response

Answers-accepted : (t : ClientState) → is_sending_challenge_response t ≡ true → Answers t connected
Answers-accepted sending_challenge_response e = accepted
Answers-accepted disconnected e = ground arith
Answers-accepted sending_request e = ground arith
Answers-accepted connected e = ground arith

Edge-requests : (t : ClientState) → is_disconnected t ≡ true → Edge t sending_request
Edge-requests disconnected e = requests
Edge-requests sending_challenge_response e = ground arith
Edge-requests sending_request e = ground arith
Edge-requests connected e = ground arith

module _ (h : Host) (c : Crypto) (x : KeyExchange) where
  -- One call, or one of the threads. `n` is how many of them are left.
  pub data Step : Client → Client → Type 0 where
    connects : (s : Client) → Step s (connect h c x s).0
    responds_late :
        (s : Client) (n : ℕ)
        → s.responding ≡ n + 1
        → Step s (respond_challenge h c x (record s { responding = n })).0
    hears :
        (s : Client) (now later p_size : ℕ) (datagram : Option (Address × List ℕ))
        → Step s (listen h c x now later p_size datagram s).0
    sends :
        (s : Client) (sent : Bool) (bytes : List ℕ) (size : ℕ)
        → Step s (send_game_data h c x sent bytes size s).0
    disconnects : (s : Client) → Step s (send_disconnect h c x s).0
    sets_timeout : (s : Client) (value : Bool) → Step s (set_active_timeout value s)
    destroyed : (s : Client) → Step s (destroy_client h c x s).0

  Answers-IsClosed : (a : ClientState) → IsClosed (λ t. Answers a t.state)
  unfolding disconnect
  Answers-IsClosed a = record { under_sent = λ s out q. q; under_disconnect = λ s q. leaves a }

  Answers-Carries : (a : ClientState) → Carries h c x (λ t. t.state ≡ a) (λ t. Answers a t.state)
  unfolding handle_challenge handle_accepted
  Answers-Carries a = record {
    closed = Answers-IsClosed a;
    pass = λ s e. rw e (stays a);
    under_statics = λ s r e. e;
    under_sender = λ s r e. e;
    under_received = λ s n e. e;
    under_ack = λ s n e. rw e (stays a);
    under_challenge = λ s key e p. rw p (stays a);
    under_accepted = λ s id e p. rw (sym p) (Answers-accepted s.state e);
  }

  -- Whatever datagram arrives, the client stays in its state, is disconnected, or, where it has
  -- answered a challenge, is connected.
  pub listen-Answers :
      (now later p_size : ℕ) (datagram : Option (Address × List ℕ)) (s : Client)
      → Answers s.state (listen h c x now later p_size datagram s).0.state
  listen-Answers now later p_size datagram s =
      listen-Leads h c x _ _ (Answers-Carries s.state) now later p_size datagram s refl

  send_disconnect-Answers : (s : Client) → Answers s.state (send_disconnect h c x s).0.state
  send_disconnect-Answers s =
      send_disconnect-Leads h c x _ (Answers-IsClosed s.state) s (stays s.state)

  destroy-Answers : (s : Client) → Answers s.state (destroy_client h c x s).0.state
  unfolding destroy_client
  destroy-Answers s = elim (Bool-cases (is_connected s.state)) [
    | inl e ↦ rw e (send_disconnect-Answers s)
    | inr e ↦ rw e (stays s.state)
  ]

  send_game_data-Answers :
      (sent : Bool) (bytes : List ℕ) (size : ℕ) (s : Client)
      → Answers s.state (send_game_data h c x sent bytes size s).0.state
  unfolding send_game_data send_own_data
  send_game_data-Answers sent bytes size s = elim (Bool-cases (is_connected s.state)) [
    | inl e ↦ rw e (
        continue-Leads (λ t. t.state ≡ s.state) Q
          (write_connection_data h c d s.shared_key no_buffer)
          (λ b. send s.server_address b >> lift (ok sent)) {s = record s { sequence = next }}
          (λ t p. rw p (stays s.state))
          (λ b t p.
            continue-Leads Q Q (send s.server_address b t).1 (λ _. lift (ok sent))
              {s = (send s.server_address b t).0} (λ u q. q) (λ _ u q. q)
              (send-Leads h c x Q (Answers-IsClosed s.state) s.server_address b t
                (rw p (stays s.state))))
          refl)
    | inr e ↦ rw e (stays s.state)
  ]
    where
      Q : Client → Type 0
      Q t = Answers s.state t.state

      next : ℕ
      next = (s.sequence + 1) % 2 ^ 16

      d : ConnectionDataPacket
      d = record { sequence = next; game_data_size = size; game_data = take size bytes }

  Edge-IsClosed : (a : ClientState) → IsClosed (λ t. Edge a t.state)
  unfolding disconnect
  Edge-IsClosed a = record {
    under_sent = λ s out q. q;
    under_disconnect = λ s q. answers a disconnected (leaves a);
  }

  connect-Edge : (s : Client) → Edge s.state (connect h c x s).0.state
  unfolding connect send_request generate_keys
  connect-Edge s = elim (Bool-cases (is_disconnected s.state)) [
    | inl e ↦ rw e (
        caught-Leads Q (send_request h c x s) (
          continue-Leads {A = Buffer × Statics} (λ t. t.state ≡ s.state) Q
            (write_connection_request h c (x.public_of s.entropy) s.statics no_buffer) go_on
            {s = generate_keys h c x s} (λ t p. rw p (answers s.state s.state (stays s.state)))
            (λ found t p.
              send-Leads h c x Q (Edge-IsClosed s.state) broadcast_address found.0
                (record t { statics = found.1; state = sending_request }) (Edge-requests s.state e))
            refl))
    | inr e ↦ rw e (answers s.state s.state (stays s.state))
  ]
    where
      Q : Client → Type 0
      Q t = Edge s.state t.state

      go_on : Buffer × Statics → C (Unit {0})
      go_on (b, statics) = do
        modify (λ t. record t { statics = statics; state = sending_request })
        send broadcast_address b

  respond-Edge : (s : Client) → Edge s.state (respond_challenge h c x s).0.state
  unfolding respond_challenge send_response
  respond-Edge s = caught-Leads Q (send_response h c x s) (
      continue-Leads (λ t. t.state ≡ s.state) Q
        (write_challenge_response h c s.shared_key no_buffer) _
        (λ t p. rw p (answers _ _ (stays s.state)))
        (λ b t p. send-Leads h c x Q (Edge-IsClosed s.state) _ b _ (responds s.state)) refl)
    where
      Q : Client → Type 0
      Q t = Edge s.state t.state

  pub Step-Edge : (s t : Client) → Step s t → Edge s.state t.state
  Step-Edge s _ (connects _) = connect-Edge s
  Step-Edge s _ (responds_late _ n e) = respond-Edge _
  Step-Edge s _ (hears _ now later p_size datagram) =
      answers _ _ (listen-Answers now later p_size datagram s)
  Step-Edge s _ (sends _ sent bytes size) = answers _ _ (send_game_data-Answers sent bytes size s)
  Step-Edge s _ (disconnects _) = answers _ _ (send_disconnect-Answers s)
  Step-Edge s _ (sets_timeout _ value) = answers _ _ (stays s.state)
  Step-Edge s _ (destroyed _) = answers _ _ (destroy-Answers s)
