-- ===== src/Server/Surviving.antt =====
-- That the server hears every datagram of the lobby to its end.
use game_network.Base.{
  ℕ, ◌≡◌, refl, ap, arith, Bool, true, false, ◌||◌, List, Option, inl, inr, Bool-cases,
  if◌then◌else◌, Result, ok, throws, fault, out_of_range, exception_pointer,
}
use game_network.Base.Int.{ℤ_leb, is_positive, is_index, to_index}
use game_network.Base.Outcomes.{Ends, Yields, continue-Ends}
use game_network.Base.Methods.{continue_with, ◌>>=◌, ◌>>◌, lift, modify}
use game_network.Platform.{Host, Crypto, KeyExchange, KeySizes}
use game_network.Address.{Address, no_address}
use game_network.Buffer.{Buffer}
use game_network.Crc.{Statics, init_table}
use game_network.Packet.{
  PacketType, invalid_packet, connection_request, challenge, challenge_response,
  connection_accepted, connection_data, disconnect, unlisted, read_public_key,
}
use game_network.Packet.Safety.{Readable, read_public_key-Ends}
use game_network.Packet.Arriving.{Fits, IsCheckable, arrived-IsCheckable}
use game_network.Socket.{receive_into}
use game_network.Server.{
  Server, resolve, find_existing_connection_index, find_existing_challenge_index,
}
use game_network.Server.Handlers.{handle_connection_request}
use game_network.Server.Listen.{
  Heard, nothing_heard, caught, in_lobby, listen, identify, identify_unknown, only_request,
  dispatch, hear_request, hear_response, hear_data, hear_disconnect,
}
use game_network.Buffer.Safety.{IsValid}
use game_network.Server.Preservation.{Fills}
use game_network.Server.Keyed.{IsKeyed, IsKeyed-Carries}
use game_network.Packet.Filling.{verify_packet_crc-Yields}
use game_network.Server.Answering.{handle_connection_request-ok, handle_challenge_response-ok}

-- What is heard in the lobby is nothing.
abbrev pub Nothing : Heard → Type 0
Nothing r = r ≡ nothing_heard

caught-Nothing : (r : Server × Result Heard) → Ends Nothing r.1 → (caught r).1 ≡ ok nothing_heard
caught-Nothing (s, ok a) e = ap ok e
caught-Nothing (s, throws out_of_range) e = refl
caught-Nothing (s, throws exception_pointer) e = absurd e
caught-Nothing (s, fault) e = absurd e

module _ (h : Host) (c : Crypto) (x : KeyExchange) (sizes : KeySizes c x) (now p_size : ℕ)
    (sender : Address) where
  hear_request-Ends :
      (b : Buffer) (s : Server)
      → IsValid b
      → IsKeyed x s
      → in_lobby s ≡ true
      → Ends Nothing (hear_request h c x now sender b s).1
  unfolding hear_request
  hear_request-Ends b s v p lobby = rw lobby (
      continue-Ends (λ _. Unit {0}) Nothing (read_public_key h c b)
        (λ r. do handle_connection_request h c x now r.0 sender; lift (ok nothing_heard)) s
        (read_public_key-Ends h c b (omega (arith, sizes.small)) v)
        λ r u. rw (handle_connection_request-ok h c x sizes now r.0 sender s p) refl)

  hear_response-Ends : (s : Server) → Ends Nothing (hear_response h c x now sender s).1
  unfolding hear_response
  hear_response-Ends s = elim (Bool-cases (in_lobby s)) [
    | inl e ↦ rw (e, handle_challenge_response-ok h c x sizes now sender s) refl
    | inr e ↦ rw e refl
  ]

  hear_data-Ends :
      (b : Buffer) (s : Server)
      → in_lobby s ≡ true
      → Ends Nothing (hear_data h c x now p_size sender b s).1
  unfolding hear_data
  hear_data-Ends b s lobby = rw lobby refl

  hear_disconnect-Ends : (s : Server) → Ends Nothing (hear_disconnect h c x now sender s).1
  unfolding hear_disconnect
  hear_disconnect-Ends s =
      elim (Bool-cases (
        is_positive (find_existing_connection_index sender s)
        || is_positive (find_existing_challenge_index sender s))) [
          | inl e ↦ rw e refl
          | inr e ↦ rw e refl
        ]

  dispatch-Ends :
      (t : PacketType) (b : Buffer) (s : Server)
      → Readable (t, b)
      → IsKeyed x s
      → in_lobby s ≡ true
      → Ends Nothing (dispatch h c x now p_size sender t b s).1
  unfolding dispatch
  dispatch-Ends connection_request b s v p lobby = hear_request-Ends b s (v (λ q. cc q)) p lobby
  dispatch-Ends challenge_response b s v p lobby = hear_response-Ends s
  dispatch-Ends connection_data b s v p lobby = hear_data-Ends b s lobby
  dispatch-Ends disconnect b s v p lobby = hear_disconnect-Ends s
  dispatch-Ends invalid_packet b s v p lobby = refl
  dispatch-Ends challenge b s v p lobby = refl
  dispatch-Ends connection_accepted b s v p lobby = refl
  dispatch-Ends (unlisted n) b s v p lobby = refl

  -- What is left of `Listen` behind the check of the packet.
  checked-Ends :
      (r : Result (PacketType × Buffer)) (s : Server)
      → Ends Readable r
      → IsKeyed x s
      → in_lobby s ≡ true
      → Ends Nothing (continue_with r (λ p. dispatch h c x now p_size sender p.0 p.1) s).1
  checked-Ends r s e p lobby =
      continue-Ends Readable Nothing r (λ p. dispatch h c x now p_size sender p.0 p.1) s e
        λ q v. dispatch-Ends q.0 q.1 s v p lobby

  only_request-Readable :
      (t : PacketType) (b : Buffer) → Readable (t, b) → Readable (only_request t, b)
  only_request-Readable connection_request b v = v
  only_request-Readable invalid_packet b v = v
  only_request-Readable challenge b v = λ ne. absurd (ne refl)
  only_request-Readable challenge_response b v = λ ne. absurd (ne refl)
  only_request-Readable connection_accepted b v = λ ne. absurd (ne refl)
  only_request-Readable connection_data b v = λ ne. absurd (ne refl)
  only_request-Readable disconnect b v = λ ne. absurd (ne refl)
  only_request-Readable (unlisted n) b v = λ ne. absurd (ne refl)

  unknown-Ends :
      (r : Result (PacketType × Buffer × Statics)) (s : Server)
      → Ends (λ (p : PacketType × Buffer × Statics). Readable (p.0, p.1)) r
      → Yields (λ (p : PacketType × Buffer × Statics). Fills s.statics p.2) r
      → IsKeyed x s
      → in_lobby s ≡ true
      → Ends Nothing
          ((do
            (k, b) ← do
              (k, b, statics) ← lift r
              modify (λ u. record u { statics = statics })
              lift (ok (only_request k, b))
            dispatch h c x now p_size sender k b)
            s).1
  unknown-Ends (ok (t, b, statics)) s v fill p lobby =
      dispatch-Ends (only_request t) b (record s { statics = statics })
        (only_request-Readable t b v) ((IsKeyed-Carries h c x now).under_statics s statics fill p)
        lobby
  unknown-Ends (throws out_of_range) s v fill p lobby = tt
  unknown-Ends (throws exception_pointer) s v fill p lobby = v
  unknown-Ends fault s v fill p lobby = v

  filling : (e : Bool) (s : Statics) → Fills s (if e then s else init_table s)
  filling true s = inl refl
  filling false s = inr refl

  identified-Ends :
      (b : Buffer) (s : Server)
      → IsCheckable h c b
      → IsKeyed x s
      → in_lobby s ≡ true
      → Ends Nothing
          ((do (t, b') ← identify h c x now sender b; dispatch h c x now p_size sender t b') s).1
  unfolding identify identify_unknown resolve
  identified-Ends b s able p lobby =
      elim (Bool-cases (is_positive (find_existing_connection_index sender s))) [
        | inl e ↦ rw e (checked-Ends _ s (able.by_key _) p lobby)
        | inr e ↦ elim (Bool-cases (is_index (find_existing_challenge_index sender s))) [
          | inl f ↦
              rw (e, f)
                (checked-Ends _ (resolve (to_index (find_existing_challenge_index sender s)) s)
                  (able.by_key _)
                  ((IsKeyed-Carries h c x now).under_resolve s
                    (to_index (find_existing_challenge_index sender s)) p)
                  lobby)
          | inr f ↦
              rw (e, f)
                (let fill = filling (ℤ_leb b.size 0) s.statics in
                  let q = (IsKeyed-Carries h c x now).under_statics s _ fill p in
                  unknown-Ends _
                    (record s {
                      statics = if ℤ_leb b.size 0 then s.statics else init_table s.statics;
                    })
                    (able.by_checksum _ q.table) (verify_packet_crc-Yields h c _ b) q lobby)
        ]
      ]

module _ (h : Host) (c : Crypto) (x : KeyExchange) (sizes : KeySizes c x) (now p_size : ℕ) where
  -- In the lobby, whatever datagram of at most 1024 bytes arrives, or nothing, and from whomever, a
  -- keyed server's Listen comes to its end: it throws nothing, stays in its memory and returns 0.
  pub listen-survives :
      (datagram : Option (Address × List ℕ)) (s : Server)
      → Fits datagram
      → IsKeyed x s
      → in_lobby s ≡ true
      → (listen h c x now p_size datagram s).1 ≡ ok nothing_heard
  unfolding listen
  listen-survives datagram s fits p lobby = caught-Nothing _ (
      identified-Ends h c x sizes now p_size (receive_into h no_address datagram).0 _ s
        (arrived-IsCheckable h c no_address datagram fits) p lobby)
