-- ===== src/Exports/Joining.antt =====
-- A client that is used through the exported functions joins a server.
use game_network.Base.{
  arith, ℕ, suc, ◌+◌, ◌/◌, ◌^◌, ◌<◌, ◌≤◌, ◌≡◌, refl, ap, ◌∙◌, true, List, [], ◌∷◌, Option, some,
  take,
}
use game_network.Base.Int.{pos}
use game_network.Platform.{Host, Crypto, KeyExchange, KeySizes}
use game_network.Address.{Address}
use game_network.Buffer.{to_int}
use game_network.Crc.{Statics}
use game_network.Crc.Table
use game_network.Crc.Table.{init_table-IsFilled}
use game_network.Packet.{challenge}
use game_network.Packet.Keys
use game_network.Packet.Signed.{signed}
use game_network.Packet.Control.{accepted_text}
use game_network.Client.{Client, is_disconnected, generate_keys}
use game_network.Client.Listen.{timeout}
use game_network.Client.Joining as Joining
use game_network.Exports.Clients.{
  Request, to_connect, to_listen, to_respond, perform, perform_all, respond_late, client_connect,
  client_listen, client_get_state, client_get_index,
}

module _ (h : Host) (c : Crypto) (x : KeyExchange) (sizes : KeySizes c x) (now later p_size : ℕ)
    (from : Address) (s : Client) (valid : Table.IsValid s.statics) (n : ℕ) (r : Statics)
    (w : Table.IsValid r) (id : ℕ) where
  -- The key of the client with the server that has the key `n`.
  abbrev pub agreed : List ℕ
  agreed =
      x.sha256 (take (c.public_key_size / 8) (x.shared (x.public_of n) (x.private_of s.entropy)))

  -- What comes from the server.
  abbrev pub challenge_datagram : Option (Address × List ℕ)
  challenge_datagram = some (from, Keys.wire_of h c x sizes n r w challenge)

  abbrev pub accepted_datagram : Option (Address × List ℕ)
  accepted_datagram = some (from, signed h c agreed (accepted_text h c id))

  abbrev requested : Client
  requested = Joining.requested h c x sizes s valid

  abbrev challenged : Client
  challenged = Joining.challenged h c x sizes now later p_size from requested n

  abbrev responded : Client
  responded = Joining.responded h c x sizes (record challenged { responding = s.responding })

  abbrev accepted : Client
  accepted = Joining.accepted h c x sizes now later p_size from responded id

  connecting : is_disconnected s.state ≡ true → perform h c x to_connect (some s) ≡ some requested
  unfolding perform client_connect
  connecting idle = ap (λ q. some q.0) (Joining.connect-requested h c x sizes s valid idle)

  hearing_challenge :
      perform h c x (to_listen now later p_size challenge_datagram) (some requested)
      ≡ some challenged
  unfolding perform client_listen
  hearing_challenge =
      ap (λ q. some q.0)
        (Joining.listen-challenged h c x sizes now later p_size from requested n r w
          (init_table-IsFilled s.statics valid).0 refl)

  responding : perform h c x to_respond (some challenged) ≡ some responded
  unfolding perform respond_late
  responding =
      let one_more : s.responding + 1 ≡ suc s.responding = omega arith in
      ap (λ m. some (respond_late h c x m challenged)) one_more
      ∙ ap (λ q. some q.0)
          (Joining.respond_challenge-responded h c x sizes
            (record challenged { responding = s.responding }))

  hearing_accepted :
      id < 2 ^ 32
      → later ≤ now + timeout
      → perform h c x (to_listen now later p_size accepted_datagram) (some responded)
        ≡ some accepted
  unfolding perform client_listen generate_keys
  hearing_accepted low soon =
      ap (λ q. some q.0)
        (Joining.listen-accepted h c x sizes now later p_size from responded id low refl soon)

  abbrev first : Request h c x
  first = to_listen now later p_size challenge_datagram

  abbrev last : Request h c x
  last = to_listen now later p_size accepted_datagram

  joining :
      is_disconnected s.state ≡ true
      → id < 2 ^ 32
      → later ≤ now + timeout
      → perform_all h c x (to_connect ∷ first ∷ to_respond ∷ last ∷ []) (some s) ≡ some accepted
  unfolding perform_all
  joining idle low soon =
      ap (perform_all h c x (first ∷ to_respond ∷ last ∷ [])) (connecting idle)
      ∙ ap (perform_all h c x (to_respond ∷ last ∷ [])) hearing_challenge
      ∙ ap (perform_all h c x (last ∷ [])) responding
      ∙ hearing_accepted low soon

  -- A disconnected client with a valid table of the checksum, as one that has just been created, that
  -- connects, hears a server's challenge, has its thread respond, and hears in time that it is
  -- accepted, signed with the key that the two keys make: it reports the connected state and the index
  -- that it was given. All of this is through the exported functions.
  pub exports-connect :
      is_disconnected s.state ≡ true
      → id < 2 ^ 32
      → later ≤ now + timeout
      → let o =
          perform_all h c x
            (to_connect
              ∷ to_listen now later p_size challenge_datagram
              ∷ to_respond
              ∷ to_listen now later p_size accepted_datagram
              ∷ [])
            (some s) in
        (client_get_state o ≡ pos 3) × (client_get_index o ≡ to_int id)
  exports-connect idle low soon = rw (joining idle low soon) (refl, refl)
