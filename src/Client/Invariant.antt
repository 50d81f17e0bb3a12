-- ===== src/Client/Invariant.antt =====
-- What every method of the client keeps: a disconnected client has no key, and the packets' number
-- is of 16 bits.
use game_network.Base.{
  ◌≢◌, arith, ℕ, ◌+◌, ◌%◌, ◌^◌, ◌<◌, take, Bool, true, false, List, ◌≡◌, refl, Bool-cases, inl, inr,
  ok,
}
use game_network.Base.Methods.{Leads, continue-Leads, modify, lift, ◌>>◌}
use game_network.Platform.{Host, Crypto, KeyExchange, no_shared_key}
use game_network.Buffer.{Buffer, no_buffer}
use game_network.Crc.{Statics}
use game_network.Packet.{
  ConnectionDataPacket, write_connection_request, write_challenge_response, write_connection_data,
}
use game_network.Client.{
  C, send, Client, ClientState, sending_request, is_disconnected, is_sending_request, is_connected,
  connect, send_request, generate_keys, respond_challenge, send_response, send_game_data,
  send_own_data, disconnect, destroy_client, handle_challenge, handle_accepted, broadcast_address,
  new_client,
}
use game_network.Client.Closed.{IsClosed, caught-Leads, send-Leads, send_disconnect-Leads}
use game_network.Client.Hearing.{Carries, listen-Leads}
use game_network.Client.Machine.{
  Step, connects, responds_late, hears, sends, disconnects, sets_timeout, destroyed,
}
use game_network.Client.Traces.{Steps, none_yet, then_one}

pub record IsSound (s : Client) : Type 0 where
  pub no_key : is_disconnected s.state ≡ true → s.shared_key ≡ no_shared_key
  pub sequence_small : s.sequence < 2 ^ 16

pub IsSound-new_client : (statics : Statics) (entropy : ℕ) → IsSound (new_client statics entropy)
unfolding new_client
IsSound-new_client statics entropy = record { no_key = λ e. refl; sequence_small = omega arith }

IsSound-IsClosed : IsClosed IsSound
unfolding disconnect
IsSound-IsClosed = record {
  under_sent = λ s out q. record { no_key = q.no_key; sequence_small = q.sequence_small };
  under_disconnect = λ s q. record { no_key = λ e. refl; sequence_small = q.sequence_small };
}

requesting-ne : (t : ClientState) → is_sending_request t ≡ true → is_disconnected t ≢ true
requesting-ne t e f = ground arith

-- The key is not looked at while the client is not disconnected.
busy : (s : Client) → is_disconnected s.state ≡ false → s.sequence < 2 ^ 16 → IsSound s
busy s e l = record { no_key = λ f. ground arith; sequence_small = l }

module _ (h : Host) (c : Crypto) (x : KeyExchange) where
  IsSound-Carries : Carries h c x IsSound IsSound
  unfolding handle_challenge handle_accepted
  IsSound-Carries = record {
    closed = IsSound-IsClosed;
    pass = λ s p. p;
    under_statics = λ s r p. record { no_key = p.no_key; sequence_small = p.sequence_small };
    under_sender = λ s r p. record { no_key = p.no_key; sequence_small = p.sequence_small };
    under_received = λ s n p. record { no_key = p.no_key; sequence_small = p.sequence_small };
    under_ack = λ s n p. record { no_key = p.no_key; sequence_small = p.sequence_small };
    under_challenge = λ s key e p. record {
      no_key = λ f. absurd (requesting-ne s.state e f);
      sequence_small = p.sequence_small;
    };
    under_accepted =
        λ s id e p. record { no_key = λ f. ground arith; sequence_small = p.sequence_small };
  }

  connect-IsSound : Leads IsSound IsSound (connect h c x)
  unfolding connect send_request generate_keys
  connect-IsSound s p = elim (Bool-cases (is_disconnected s.state)) [
    | inl e ↦ rw e (
        caught-Leads IsSound (send_request h c x s) (
          continue-Leads {A = Buffer × Statics} IsSound IsSound
            (write_connection_request h c (x.public_of s.entropy) s.statics no_buffer) go_on
            {s = generate_keys h c x s} (λ t q. q)
            (λ found t q.
              send-Leads h c x IsSound IsSound-IsClosed broadcast_address found.0
                (record t { statics = found.1; state = sending_request })
                (busy _ refl q.sequence_small))
            (record { no_key = p.no_key; sequence_small = p.sequence_small })))
    | inr e ↦ rw e p
  ]
    where
      go_on : Buffer × Statics → C (Unit {0})
      go_on (b, statics) = do
        modify (λ t. record t { statics = statics; state = sending_request })
        send broadcast_address b

  respond-IsSound : Leads IsSound IsSound (respond_challenge h c x)
  unfolding respond_challenge send_response
  respond-IsSound s p = caught-Leads IsSound (send_response h c x s) (
      continue-Leads IsSound IsSound (write_challenge_response h c s.shared_key no_buffer) _
        (λ t q. q)
        (λ b t q. send-Leads h c x IsSound IsSound-IsClosed _ b _ (busy _ refl q.sequence_small)) p)

  send_game_data-IsSound :
      (sent : Bool) (bytes : List ℕ) (size : ℕ)
      → Leads IsSound IsSound (send_game_data h c x sent bytes size)
  unfolding send_game_data send_own_data
  send_game_data-IsSound sent bytes size s p = elim (Bool-cases (is_connected s.state)) [
    | inl e ↦ rw e (
        continue-Leads IsSound IsSound (write_connection_data h c d s.shared_key no_buffer)
          (λ b. send s.server_address b >> lift (ok sent)) {s = record s { sequence = next }}
          (λ t q. q)
          (λ b t q.
            continue-Leads IsSound IsSound (send s.server_address b t).1 (λ _. lift (ok sent))
              {s = (send s.server_address b t).0} (λ u r. r) (λ _ u r. r)
              (send-Leads h c x IsSound IsSound-IsClosed s.server_address b t q))
          (record { no_key = p.no_key; sequence_small = omega arith }))
    | inr e ↦ rw e p
  ]
    where
      next : ℕ
      next = (s.sequence + 1) % 2 ^ 16

      d : ConnectionDataPacket
      d = record { sequence = next; game_data_size = size; game_data = take size bytes }

  destroy-IsSound : Leads IsSound IsSound (destroy_client h c x)
  unfolding destroy_client
  destroy-IsSound s p = elim (Bool-cases (is_connected s.state)) [
    | inl e ↦ rw e (send_disconnect-Leads h c x IsSound IsSound-IsClosed s p)
    | inr e ↦ rw e p
  ]

  Step-IsSound : (s t : Client) → Step h c x s t → IsSound s → IsSound t
  Step-IsSound s _ (connects _) p = connect-IsSound s p
  Step-IsSound s _ (responds_late _ n e) p =
      respond-IsSound (record s { responding = n })
        (record { no_key = p.no_key; sequence_small = p.sequence_small })
  Step-IsSound s _ (hears _ now later p_size datagram) p =
      listen-Leads h c x IsSound IsSound IsSound-Carries now later p_size datagram s p
  Step-IsSound s _ (sends _ sent bytes size) p = send_game_data-IsSound sent bytes size s p
  Step-IsSound s _ (disconnects _) p = send_disconnect-Leads h c x IsSound IsSound-IsClosed s p
  Step-IsSound s _ (sets_timeout _ value) p = record {
    no_key = p.no_key;
    sequence_small = p.sequence_small;
  }
  Step-IsSound s _ (destroyed _) p = destroy-IsSound s p

  -- Calls, threads and datagrams in any order keep a sound client sound: while it is disconnected
  -- its key is all zeros, and the number of its last packet is below 2 ^ 16.
  pub Steps-IsSound : (s t : Client) → Steps h c x s t → IsSound s → IsSound t
  Steps-IsSound s _ (none_yet _) p = p
  Steps-IsSound s t (then_one _ u _ walk step) p = Step-IsSound u t step (Steps-IsSound s u walk p)
