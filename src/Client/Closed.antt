-- ===== src/Client/Closed.antt =====
-- Predicates that no message and no disconnection ends, and the client's methods that do no more.
use game_network.Base.{
  ℕ, zero, suc, Bool, true, false, List, ◌++◌, ◌∷◌, [], Option, none, some, if◌then◌else◌, ◌&&◌,
  ◌||◌, ltb, ◌-◌, Result, ok, throws, fault, out_of_range, exception_pointer,
}
use game_network.Base.Int.{to_unsigned}
use game_network.Base.Methods.{Leads, continue-Leads, modify, lift, ◌>>◌}
use game_network.Platform.{Host, Crypto, KeyExchange}
use game_network.Address.{Address}
use game_network.Buffer.{Buffer, no_buffer, load}
use game_network.Packet.{write_disconnect}
use game_network.Client.{
  Client, send, send_bytes, send_times, send_leave, send_disconnect, disconnect, caught,
  is_disconnected, is_sending_request, is_connected,
}
use game_network.Client.Listen.{check_timeout, hear_disconnect, nothing_heard, timeout}

pub caught-Leads : (Q : Client → Type 0) (r : Client × Result (Unit {0})) → Q r.0 → Q (caught r).0
caught-Leads Q (s, ok u) q = q
caught-Leads Q (s, throws out_of_range) q = q
caught-Leads Q (s, throws exception_pointer) q = q
caught-Leads Q (s, fault) q = q

pub record IsClosed (Q : Client → Type 0) : Type 0 where
  pub under_sent : (s : Client) (out : List (Address × List ℕ)) → Q s → Q (record s { sent = out })
  pub under_disconnect : (s : Client) → Q s → Q (disconnect s)

module _ (h : Host) (c : Crypto) (x : KeyExchange) (Q : Client → Type 0) (closed : IsClosed Q) where
  send_bytes-Leads : (a : Address) (bytes : Option (List ℕ)) → Leads Q Q (send_bytes a bytes)
  send_bytes-Leads a none s q = q
  send_bytes-Leads a (some bytes) s q = closed.under_sent s (s.sent ++ (a, bytes) ∷ []) q

  pub send-Leads : (a : Address) (b : Buffer) → Leads Q Q (send a b)
  unfolding send
  send-Leads a b = send_bytes-Leads a (load 0 (to_unsigned b.size) b.memory)

  send_times-Leads : (n : ℕ) (a : Address) (b : Buffer) → Leads Q Q (send_times h c x n a b)
  unfolding send_times
  send_times-Leads zero a b = λ s q. q
  send_times-Leads (suc n) a b = λ s q.
      continue-Leads Q Q (send a b s).1 (λ _. send_times h c x n a b) (λ t q'. q')
        (λ _. send_times-Leads n a b) (send-Leads a b s q)

  send_leave-Leads : Leads Q Q (send_leave h c x)
  unfolding send_leave
  send_leave-Leads s q =
      continue-Leads Q Q (write_disconnect h c s.shared_key no_buffer)
        (λ b t. send_times h c x 10 t.server_address b t) (λ t q'. q')
        (λ b t q'. send_times-Leads 10 t.server_address b t q') q

  pub send_disconnect-Leads : Leads Q Q (send_disconnect h c x)
  unfolding send_disconnect
  send_disconnect-Leads s q = at_state (is_disconnected s.state || is_sending_request s.state)
    where
      at_state :
          (p : Bool)
          → Q
              (if p
                then (disconnect s, ok tt)
                else caught ((do send_leave h c x; modify disconnect) s)).0
      at_state true = closed.under_disconnect s q
      at_state false = caught-Leads Q _ (
          continue-Leads Q Q (send_leave h c x s).1 (λ _. modify disconnect) (λ t q'. q')
            (λ _ t q'. closed.under_disconnect t q') (send_leave-Leads s q))

  pub check_timeout-Leads : (later : ℕ) → Leads Q Q (check_timeout h c x later)
  unfolding check_timeout
  check_timeout-Leads later s q =
      at_time
        (s.active_timeout && is_connected s.state && ltb timeout (later - s.last_received_packet))
    where
      at_time :
          (p : Bool)
          → Q
              (if p
                then (do send_disconnect h c x; lift (ok nothing_heard)) s
                else (s, ok nothing_heard)).0
      at_time true =
          continue-Leads Q Q (send_disconnect h c x s).1 (λ _. lift (ok nothing_heard)) (λ t q'. q')
            (λ _ t q'. q') (send_disconnect-Leads s q)
      at_time false = q

  pub hear_disconnect-Leads : (later : ℕ) → Leads Q Q (hear_disconnect h c x later)
  unfolding hear_disconnect
  hear_disconnect-Leads later s q = check_timeout-Leads later _ (left (is_disconnected s.state))
    where
      left : (p : Bool) → Q (if p then s else disconnect s)
      left true = q
      left false = closed.under_disconnect s q
