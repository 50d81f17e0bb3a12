-- ===== src/Server/Answering.antt =====
-- What the server's handlers of the lobby come to: they send their answer.
use game_network.Base.{
  ℕ, ◌%◌, ◌^◌, ◌≡◌, refl, arith, true, false, ◌&&◌, List, get_or, length-append, inl, inr,
  Bool-cases, ok,
}
use game_network.Base.Int.{pos, is_index}
use game_network.Base.Bytes.{be_bytes, length-be_bytes}
use game_network.Platform.{Host, Crypto, KeyExchange, KeySizes}
use game_network.Address.{Address, same_address}
use game_network.Packet.{challenge, connection_accepted}
use game_network.Packet.Keys
use game_network.Packet.Header.{header, length-header}
use game_network.Packet.Signed.{signed, length-signed}
use game_network.Packet.Control.{accepted_text, write_connection_accepted-sent}
use game_network.Socket.Wire.{load-written}
use game_network.Server.{
  Server, send, challenge_at, connection_at, find_existing_challenge_index,
  find_free_challenge_index, find_free_connection_index,
}
use game_network.Server.Handlers.{
  put_challenge, start_task, choose_challenge, send_challenge, handle_connection_request,
  handle_challenge_response, send_accepted,
}
use game_network.Server.Slots.{get_or-set_self}
use game_network.Server.Joining.{found}
use game_network.Server.Preservation.{Carries, is_index-eq}
use game_network.Server.Keyed.{IsKeyed, IsKeyed-Carries}

module _ (h : Host) (c : Crypto) (x : KeyExchange) (sizes : KeySizes c x) (now : ℕ) where
  carries : Carries h c x now (IsKeyed x)
  carries = IsKeyed-Carries h c x now

  send_challenge-ok :
      (sender : Address) (i : ℕ) (s : Server)
      → IsKeyed x s
      → get_or s.challenged i false ≡ true
      → (send_challenge h c x now sender i s).1 ≡ ok tt
  unfolding send_challenge start_task send
  send_challenge-ok sender i s p there =
      let (n, e) = (carries.under_start s i p).keys i there in
      rw
        (
          e,
          Keys.write_challenge-sent h c x sizes n s.statics p.table,
          Keys.packet_of-Holds h c x sizes n s.statics p.table challenge,
        )
        refl

  -- A challenge that is found is going on.
  challenged_there :
      (a : Address) (s : Server) (i : ℕ)
      → find_existing_challenge_index a s ≡ pos i
      → get_or s.challenged i false ≡ true
  unfolding find_existing_challenge_index
  challenged_there a s i e =
      let (low, passes) =
        found (λ j. get_or s.challenged j false && same_address (challenge_at s j).client_address a)
          i e in
      ground arith

  put_there :
      (key : List ℕ) (sender : Address) (s : Server)
      → IsKeyed x s
      → get_or (put_challenge h c x now 1 sender key s).challenged 1 false ≡ true
  unfolding put_challenge
  put_there key sender s p =
      get_or-set_self s.challenged 1 true false (omega (arith, p.shape.challenged_size))

  pub handle_connection_request-ok :
      (key : List ℕ) (sender : Address) (s : Server)
      → IsKeyed x s
      → (handle_connection_request h c x now key sender s).1 ≡ ok tt
  unfolding handle_connection_request choose_challenge
  handle_connection_request-ok key sender s p =
      elim (Bool-cases (is_index (find_existing_challenge_index sender s))) [
        | inl e ↦ rw e (
            send_challenge-ok sender _ s p (
              challenged_there sender s _ (is_index-eq (find_existing_challenge_index sender s) e)))
        | inr e ↦ elim (Bool-cases (is_index (find_free_challenge_index s))) [
          | inl f ↦
              rw (e, f)
                (send_challenge-ok sender 1 (put_challenge h c x now 1 sender key s)
                  (carries.under_put s sender key p) (put_there key sender s p))
          | inr f ↦ rw (e, f) refl
        ]
      ]

  send_accepted-ok :
      (sender : Address) (n : ℕ) (s : Server) → (send_accepted h c x now sender n s).1 ≡ ok tt
  unfolding send_accepted send
  send_accepted-ok sender n s =
      let key = (connection_at s n).shared_key in
      let text = accepted_text h c (n % 2 ^ 32) in
      rw
        (
          write_connection_accepted-sent h c (n % 2 ^ 32) key (omega arith)
              (omega (arith, sizes.small)),
          load-written (signed h c key text) (
              omega (
                arith,
                sizes.small,
                length-signed h c key text,
                length-append (header connection_accepted) (be_bytes 4 (n % 2 ^ 32)),
                length-header connection_accepted,
                length-be_bytes 4 (n % 2 ^ 32),
              )),
        )
        refl

  pub handle_challenge_response-ok :
      (sender : Address) (s : Server) → (handle_challenge_response h c x now sender s).1 ≡ ok tt
  unfolding handle_challenge_response
  handle_challenge_response-ok sender s =
      elim (Bool-cases (is_index (find_existing_challenge_index sender s))) [
        | inl e ↦ elim (Bool-cases (is_index (find_free_connection_index s))) [
          | inl f ↦ rw (e, f) (send_accepted-ok sender _ _)
          | inr f ↦ rw (e, f) refl
        ]
        | inr e ↦ rw e refl
      ]
