-- ===== src/Client/Memory.antt =====
-- That a client that is not connected stays in its memory, whatever it hears.
use game_network.Base.{
  arith, ℕ, ◌-◌, ◌≡◌, refl, ap, ◌∙◌, Bool, true, false, ◌&&◌, ◌||◌, List, Option, ltb,
  if◌then◌else◌, Bool-cases, inl, inr, Result, ok, throws, fault, out_of_range, exception_pointer,
}
use game_network.Base.Int.{ℤ_leb}
use game_network.Base.Outcomes.{Ends, continue-Ends}
use game_network.Base.Methods.{continue_with, ◌>>=◌, ◌>>◌, lift, modify}
use game_network.Platform.{Host, Crypto, KeyExchange, KeySizes}
use game_network.Address.{Address}
use game_network.Buffer.{Buffer}
use game_network.Buffer.Safety.{IsValid}
use game_network.Crc.{Statics, init_table}
use game_network.Crc.Table
use game_network.Crc.Table.{init_table-IsFilled}
use game_network.Packet.{
  PacketType, invalid_packet, connection_request, challenge, challenge_response,
  connection_accepted, connection_data, disconnect, unlisted, read_public_key,
  read_connection_accepted,
}
use game_network.Packet.Safety.{Readable, read_public_key-Ends, read_connection_accepted-Ends}
use game_network.Packet.Arriving.{Fits, IsCheckable, arrived-IsCheckable}
use game_network.Socket.{receive_into}
use game_network.Client.{
  Client, is_connected, is_disconnected, is_sending_request, is_sending_challenge_response,
  handle_challenge, handle_accepted,
}
use game_network.Client.Listen.{
  Heard, nothing_heard, timeout, is_valid_type, note_received, check_crc, identify, check_timeout,
  hear_challenge, hear_accepted, hear_disconnect, hear_data, dispatch, listen,
}
use game_network.Client.Leaving.{send_disconnect-leaving}

-- What such a client hears is nothing.
abbrev pub Nothing : Heard → Type 0
Nothing r = r ≡ nothing_heard

second : (a b d : Bool) → a && b && d ≡ true → b ≡ true
second a b d e = ground arith

filled-IsValid :
    (e : Bool) (s : Statics) → Table.IsValid s → Table.IsValid (if e then s else init_table s)
filled-IsValid true s v = v
filled-IsValid false s v = (init_table-IsFilled s v).0

note_received-state :
    (now : ℕ) (t : PacketType) (s : Client) → (note_received now t s).state ≡ s.state
note_received-state now t s = elim (Bool-cases (is_valid_type t)) [
  | inl e ↦ rw e refl
  | inr e ↦ rw e refl
]

module _ (h : Host) (c : Crypto) (x : KeyExchange) (sizes : KeySizes c x) (later p_size : ℕ) where
  check_timeout-Ends : (s : Client) → Ends Nothing (check_timeout h c x later s).1
  unfolding check_timeout
  check_timeout-Ends s =
      elim (Bool-cases (
        s.active_timeout && is_connected s.state && ltb timeout (later - s.last_received_packet))) [
          | inl e ↦
              rw
                (
                  e,
                  send_disconnect-leaving h c x s (omega (arith, sizes.small))
                      (second s.active_timeout (is_connected s.state) _ e),
                )
                refl
          | inr e ↦ rw e refl
        ]

  hear_challenge-Ends :
      (b : Buffer) (s : Client) → IsValid b → Ends Nothing (hear_challenge h c x later b s).1
  unfolding hear_challenge
  hear_challenge-Ends b s v = elim (Bool-cases (is_sending_request s.state)) [
    | inl e ↦ rw e (
        continue-Ends (λ _. Unit {0}) Nothing (read_public_key h c b)
          (λ r. do modify (handle_challenge h c x r.0); check_timeout h c x later) s
          (read_public_key-Ends h c b (omega (arith, sizes.small)) v)
          λ r u. check_timeout-Ends (handle_challenge h c x r.0 s))
    | inr e ↦ rw e (check_timeout-Ends s)
  ]

  hear_accepted-Ends :
      (b : Buffer) (s : Client) → IsValid b → Ends Nothing (hear_accepted h c x later b s).1
  unfolding hear_accepted
  hear_accepted-Ends b s v = elim (Bool-cases (is_sending_challenge_response s.state)) [
    | inl e ↦ rw e (
        continue-Ends (λ _. Unit {0}) Nothing (read_connection_accepted h c b)
          (λ r. do modify (handle_accepted h c x r.0); check_timeout h c x later) s
          (read_connection_accepted-Ends h c b v)
          λ r u. check_timeout-Ends (handle_accepted h c x r.0 s))
    | inr e ↦ rw e (check_timeout-Ends s)
  ]

  hear_disconnect-Ends : (s : Client) → Ends Nothing (hear_disconnect h c x later s).1
  unfolding hear_disconnect
  hear_disconnect-Ends s = check_timeout-Ends _

  hear_data-Ends :
      (b : Buffer) (s : Client)
      → is_connected s.state ≡ false
      → Ends Nothing (hear_data h c x later p_size b s).1
  unfolding hear_data
  hear_data-Ends b s e = rw e (hear_disconnect-Ends s)

  dispatch-Ends :
      (t : PacketType) (b : Buffer) (s : Client)
      → Readable (t, b)
      → is_connected s.state ≡ false
      → Ends Nothing (dispatch h c x later p_size t b s).1
  unfolding dispatch
  dispatch-Ends challenge b s v e = hear_challenge-Ends b s (v (λ q. cc q))
  dispatch-Ends connection_accepted b s v e = hear_accepted-Ends b s (v (λ q. cc q))
  dispatch-Ends connection_data b s v e = hear_data-Ends b s e
  dispatch-Ends disconnect b s v e = hear_disconnect-Ends s
  dispatch-Ends invalid_packet b s v e = check_timeout-Ends s
  dispatch-Ends connection_request b s v e = check_timeout-Ends s
  dispatch-Ends challenge_response b s v e = check_timeout-Ends s
  dispatch-Ends (unlisted n) b s v e = check_timeout-Ends s

  noted-Ends :
      (now : ℕ) (t : PacketType) (b : Buffer) (s : Client)
      → Readable (t, b)
      → is_connected s.state ≡ false
      → Ends Nothing (dispatch h c x later p_size t b (note_received now t s)).1
  noted-Ends now t b s v e =
      dispatch-Ends t b (note_received now t s) v
        (ap is_connected (note_received-state now t s) ∙ e)

  -- What is left of `Listen` behind the check by the checksum.
  summed-Ends :
      (now : ℕ) (r : Result (PacketType × Buffer × Statics)) (s : Client)
      → Ends (λ (p : PacketType × Buffer × Statics). Readable (p.0, p.1)) r
      → is_connected s.state ≡ false
      → Ends Nothing
          ((do
            (t, b) ← do
              (t, b, statics) ← lift r
              modify (λ u. record u { statics = statics })
              lift (ok (t, b))
            modify (note_received now t)
            dispatch h c x later p_size t b)
            s).1
  summed-Ends now (ok (t, b, statics)) s v e =
      noted-Ends now t b (record s { statics = statics }) v e
  summed-Ends now (throws out_of_range) s v e = tt
  summed-Ends now (throws exception_pointer) s v e = v
  summed-Ends now fault s v e = v

  signed-Ends :
      (now : ℕ) (r : Result (PacketType × Buffer)) (s : Client)
      → Ends Readable r
      → is_connected s.state ≡ false
      → Ends Nothing
          (continue_with r
            (λ p. do modify (note_received now p.0); dispatch h c x later p_size p.0 p.1)
            s).1
  signed-Ends now r s v e =
      continue-Ends Readable Nothing r _ s v λ p w. noted-Ends now p.0 p.1 s w e

  identified-Ends :
      (now : ℕ) (b : Buffer) (s : Client)
      → IsCheckable h c b
      → Table.IsValid s.statics
      → is_connected s.state ≡ false
      → Ends Nothing
          ((do
            (t, b') ← identify h c x b
            modify (note_received now t)
            dispatch h c x later p_size t b')
            s).1
  unfolding identify check_crc
  identified-Ends now b s able v e =
      elim (Bool-cases (is_disconnected s.state || is_sending_request s.state)) [
        | inl f ↦ rw f (
            let filled = if ℤ_leb b.size 0 then s.statics else init_table s.statics in
            summed-Ends now _ (record s { statics = filled })
              (able.by_checksum filled (filled-IsValid (ℤ_leb b.size 0) s.statics v)) e)
        | inr f ↦ rw f (signed-Ends now _ s (able.by_key s.shared_key) e)
      ]

  -- A client that is not connected, and whose table of the checksum is valid, stays in its memory,
  -- whatever datagram of at most 1024 bytes arrives, or nothing, and from whomever: Listen returns 0
  -- and stores nothing, or throws `out_of_range`.
  pub listen-Ends :
      (now : ℕ) (datagram : Option (Address × List ℕ)) (s : Client)
      → Fits datagram
      → Table.IsValid s.statics
      → is_connected s.state ≡ false
      → Ends Nothing (listen h c x now later p_size datagram s).1
  unfolding listen
  listen-Ends now datagram s fits v e =
      identified-Ends now (receive_into h s.server_address datagram).1 _
        (arrived-IsCheckable h c s.server_address datagram fits) v e
