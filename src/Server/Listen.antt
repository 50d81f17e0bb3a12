-- ===== src/Server/Listen.antt =====
-- `Server::Listen`: one datagram is received, identified and handled.
--
-- `CheckForTimeouts`, whose body is commented out, does nothing. A datagram is what `Receive` stores
-- and whom it is from; where there is none, `Receive` returns -1 and leaves the address as it is.
use game_network.Base.{
  ℕ, ◌+◌, Bool, true, false, ◌||◌, if◌then◌else◌, leb, List, [], ◌++◌, Option, Result, ok, throws,
  fault, out_of_range, exception_pointer,
}
use game_network.Base.Int.{ℤ, pos, negsuc, to_unsigned, ℤ_leb, is_positive, is_index, to_index}
use game_network.Base.Bytes.{le_bytes}
use game_network.Platform.{Host, Crypto, KeyExchange}
use game_network.Address.{Address, no_address}
use game_network.Buffer.{Buffer, to_int}
use game_network.Socket.{receive_into}
use game_network.Crc.{init_table}
use game_network.Packet.{
  PacketType, invalid_packet, connection_request, challenge_response, connection_data, disconnect,
  verify_packet_hmac, verify_packet_crc, read_public_key, read_connection_data,
}
use game_network.Base.Methods.{◌>>=◌, ◌>>◌, lift, modify, get}
use game_network.Server.{
  Server, lobby, game, challenge_at, connection_at, find_existing_connection_index,
  find_existing_challenge_index, M, resolve, remove_client,
}
use game_network.Server.Handlers.{handle_connection_request, handle_challenge_response}

-- What `Listen` returns, and what it stores at `o_gameData`.
abbrev pub Heard : Type 0
Heard = ℤ × List ℕ

abbrev pub nothing_heard : Heard
nothing_heard = (pos 0, [])

abbrev pub only_request : PacketType → PacketType
only_request connection_request = connection_request
only_request t = invalid_packet

-- `catch(std::exception&)`, which no pointer reaches.
abbrev pub caught : Server × Result Heard → Server × Result Heard
caught (s, throws out_of_range) = (s, ok nothing_heard)
caught (s, throws exception_pointer) = (s, throws exception_pointer)
caught (s, fault) = (s, fault)
caught (s, ok r) = (s, ok r)

-- `m_state.load() == ServerState::LOBBY`, or `GAME`.
abbrev pub in_lobby : Server → Bool
in_lobby s = elim s.state [ lobby ↦ true | game ↦ false ]

module _ (h : Host) (c : Crypto) (x : KeyExchange) (now : ℕ) where
  -- The table stays filled also where the check throws behind `InitTable`.
  unfoldable pub identify_unknown : Buffer → M (PacketType × Buffer)
  identify_unknown b = do
    modify (λ s. record s { statics = if ℤ_leb b.size 0 then s.statics else init_table s.statics })
    statics ← get (λ s. s.statics)
    (t, b', statics') ← lift (verify_packet_crc h c statics b)
    modify (λ s. record s { statics = statics' })
    lift (ok (only_request t, b'))

  -- The type of the packet, checked with the key of the connection or of the challenge.
  unfoldable pub identify : Address → Buffer → M (PacketType × Buffer)
  unfolding identify_unknown verify_packet_hmac resolve find_existing_connection_index
      find_existing_challenge_index
  identify sender b s =
      let n = find_existing_connection_index sender s in
      let i = find_existing_challenge_index sender s in
      if is_positive n
      then (s, verify_packet_hmac h c (connection_at s (to_index n)).shared_key b)
      else if is_index i
      then (let s' = resolve (to_index i) s in
          (s', verify_packet_hmac h c (challenge_at s' (to_index i)).shared_key b))
      else identify_unknown b s

  unfoldable pub hear_request : Address → Buffer → M Heard
  unfolding handle_connection_request
  hear_request sender b s =
      if in_lobby s
      then (do
        (key, b') ← lift (read_public_key h c b)
        handle_connection_request h c x now key sender
        lift (ok nothing_heard))
          s
      else (s, ok nothing_heard)

  unfoldable pub hear_response : Address → M Heard
  unfolding handle_challenge_response
  hear_response sender s =
      if in_lobby s
      then (do handle_challenge_response h c x now sender; lift (ok nothing_heard)) s
      else (s, ok nothing_heard)

  -- `p_size` is the room at `o_gameData`, below 2 ^ 31.
  unfoldable pub hear_data : ℕ → Address → Buffer → M Heard
  unfolding find_existing_connection_index
  hear_data p_size sender b s =
      let n = find_existing_connection_index sender s in
      if in_lobby s
      then (s, ok nothing_heard)
      else (do
        (p, b') ← lift (read_connection_data h c b)
        lift (
            ok (
              if is_positive n
              then (if leb (to_unsigned b'.size + 4) p_size
                  then (to_int p.game_data_size, le_bytes 4 (to_index n) ++ p.game_data)
                  else (negsuc 0, []))
              else nothing_heard)))
          s

  unfoldable pub hear_disconnect : Address → M Heard
  unfolding remove_client find_existing_connection_index find_existing_challenge_index
  hear_disconnect sender s =
      if is_positive (find_existing_connection_index sender s)
        || is_positive (find_existing_challenge_index sender s)
      then (remove_client now sender s, ok nothing_heard)
      else (s, ok nothing_heard)

  -- The `switch`.
  unfoldable pub dispatch : ℕ → Address → PacketType → Buffer → M Heard
  unfolding hear_request hear_response hear_data hear_disconnect
  dispatch p_size sender connection_request b = hear_request sender b
  dispatch p_size sender challenge_response b = hear_response sender
  dispatch p_size sender connection_data b = hear_data p_size sender b
  dispatch p_size sender disconnect b = hear_disconnect sender
  dispatch p_size sender t b = lift (ok nothing_heard)

  unfoldable pub listen : ℕ → Option (Address × List ℕ) → Server → Server × Result Heard
  unfolding identify dispatch
  listen p_size datagram s =
      let sender = (receive_into h no_address datagram).0 in
      caught (
        (do
          (t, b) ← identify sender (receive_into h no_address datagram).1
          dispatch p_size sender t b)
          s)
