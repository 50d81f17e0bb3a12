-- ===== src/Server/Handlers.antt =====
-- `HandlePacket` of Server.cpp, the constructor, and the methods that send on their own account.
use game_network.Base.{
  ℕ, zero, suc, ◌+◌, ◌%◌, ◌^◌, ◌/◌, Bool, true, false, if◌then◌else◌, List, [], ◌∷◌, ◌++◌, Option,
  none, some, get_or, set, take, replicate, ok,
}
use game_network.Base.Int.{as_int, ℤ, pos, add_one_ℤ, is_positive, is_index, to_index}
use game_network.Platform.{Host, Crypto, KeyExchange}
use game_network.Address.{Address, from_octets}
use game_network.Buffer.{Buffer, no_buffer}
use game_network.Crc.{Statics}
use game_network.Packet.{
  write_challenge, write_connection_accepted, write_connection_data, write_disconnect,
}
use game_network.Base.Methods.{◌>>=◌, ◌>>◌, lift, modify, get}
use game_network.Server.{
  Server, lobby, game, ChallengeInfo, ConnectionInfo, challenge_at, connection_at, no_challenge,
  no_connection, max_clients, server_port, find_free_connection_index, find_free_challenge_index,
  find_existing_connection_index, find_existing_challenge_index, M, send, resolve, remove_client,
}

module _ (h : Host) (c : Crypto) (x : KeyExchange) (now : ℕ) where
  -- `Server()`, with the statics, the randomness and the callback as they are then.
  unfoldable pub new_server : Statics → ℕ → Server
  unfolding from_octets
  new_server statics entropy = record {
    challenges = replicate max_clients (no_challenge now);
    connections =
        record (no_connection now) { client_address = from_octets 127 0 0 1 server_port }
        ∷ replicate 3 (no_connection now);
    connected = true ∷ replicate 3 false;
    challenged = replicate max_clients false;
    has_callback = false;
    num_connections = pos 1;
    state = lobby;
    statics = statics;
    entropy = entropy;
    sent = [];
    announced = [];
  }

  -- A new entry, with a new pair of keys.
  unfoldable pub put_challenge : ℕ → Address → List ℕ → Server → Server
  put_challenge i sender key s = record s {
    challenges = set s.challenges i (record (no_challenge now) {
      client_address = sender;
      client_public_key = key;
      server_private_key = x.private_of s.entropy;
      server_public_key = x.public_of s.entropy;
    });
    challenged = set s.challenged i true;
    entropy = s.entropy + 1;
  }

  -- The value of the task that `std::async` starts.
  abbrev pub task_value : ChallengeInfo → List ℕ
  task_value e =
      x.sha256 (take (c.public_key_size / 8) (x.shared e.client_public_key e.server_private_key))

  unfoldable pub start_task : ℕ → Server → Server
  start_task i s = record s {
    challenges =
        set s.challenges i
          (record (challenge_at s i) { shared_key_future = some (task_value (challenge_at s i)) });
  }

  -- `if((challIndex = FindFreeChallengeIndex() >= 0))` assigns the comparison, which is 1 or 0.
  unfoldable pub choose_challenge : Address → List ℕ → Server → Server × Option ℕ
  unfolding put_challenge find_existing_challenge_index find_free_challenge_index
  choose_challenge sender key s =
      let existing = find_existing_challenge_index sender s in
      if is_index existing
      then (s, some (to_index existing))
      else let chall_index = is_index (find_free_challenge_index s) in
        if chall_index
        then (put_challenge (as_int chall_index) sender key s, some (as_int chall_index))
        else (s, none)

  -- The challenge for the entry `i`.
  unfoldable pub send_challenge : Address → ℕ → M (Unit {0})
  unfolding start_task send
  send_challenge sender i = do
    modify (start_task i)
    key ← get (λ s. (challenge_at s i).server_public_key)
    statics ← get (λ s. s.statics)
    (b, statics') ← lift (write_challenge h c key statics no_buffer)
    modify (λ s. record s { statics = statics' })
    send sender b

  abbrev pub challenge_chosen : Address → Option ℕ → M (Unit {0})
  challenge_chosen sender none = lift (ok tt)
  challenge_chosen sender (some i) = send_challenge sender i

  -- `HandlePacket(const ConnectionRequestPacket&, const Address&)`
  unfoldable pub handle_connection_request : List ℕ → Address → M (Unit {0})
  unfolding choose_challenge send_challenge
  handle_connection_request key sender s =
      challenge_chosen sender (choose_challenge sender key s).1 (choose_challenge sender key s).0

  -- The client of the challenge `i` becomes the connection `n`.
  unfoldable pub promote : ℕ → ℕ → Server → Server
  promote i n s = record s {
    connected = set s.connected n true;
    connections = set s.connections n (record (no_connection now) {
      client_address = (challenge_at s i).client_address;
      shared_key = (challenge_at s i).shared_key;
    });
    num_connections = add_one_ℤ s.num_connections;
    challenged = set s.challenged i false;
    challenges = set s.challenges i (no_challenge now);
    announced = if s.has_callback then s.announced ++ n ∷ [] else s.announced;
  }

  unfoldable pub send_accepted : Address → ℕ → M (Unit {0})
  unfolding send
  send_accepted sender n = do
    key ← get (λ s. (connection_at s n).shared_key)
    b ← lift (write_connection_accepted h c (n % 2 ^ 32) key no_buffer)
    send sender b

  -- `HandlePacket(const ChallengeResponsePacket&, const Address&)`
  unfoldable pub handle_challenge_response : Address → M (Unit {0})
  unfolding promote send_accepted resolve find_existing_challenge_index find_free_connection_index
  handle_challenge_response sender s =
      let index = find_existing_challenge_index sender s in
      let free = find_free_connection_index s in
      if is_index index
      then (let s' = resolve (to_index index) s in
          if is_index free
          then send_accepted sender (to_index free) (promote (to_index index) (to_index free) s')
          else (s', ok tt))
      else (s, ok tt)

  -- `for(int i = 0; i < 10; ++i)` of `KickClient`.
  unfoldable pub send_times : ℕ → Address → Buffer → M (Unit {0})
  unfolding send
  send_times zero a b = modify (λ s. s)
  send_times (suc n) a b = do send a b; send_times n a b

  unfoldable pub kick_with : Address → Address → List ℕ → M (Unit {0})
  unfolding send_times remove_client
  kick_with a client key = do
    b ← lift (write_disconnect h c key no_buffer)
    send_times 10 client b
    modify (remove_client now a)

  unfoldable pub kick_client : Address → M (Unit {0})
  unfolding kick_with resolve find_existing_connection_index find_existing_challenge_index
  kick_client a s =
      let n = find_existing_connection_index a s in
      let i = find_existing_challenge_index a s in
      if is_positive n
      then kick_with a (connection_at s (to_index n)).client_address
          (connection_at s (to_index n)).shared_key s
      else if is_positive i
      then (let s' = resolve (to_index i) s in
          kick_with a (challenge_at s' (to_index i)).client_address
            (challenge_at s' (to_index i)).shared_key s')
      else (s, ok tt)

  -- The packet of one round of `PropagateGameData`, under the next sequence number.
  unfoldable pub send_game_data : ℕ → List ℕ → ℕ → M (Unit {0})
  unfolding send
  send_game_data i bytes size = do
    modify (λ s. record s {
      connections =
          set s.connections i
            (record (connection_at s i) { sequence = ((connection_at s i).sequence + 1) % 2 ^ 16 });
    })
    to ← get (λ s. connection_at s i)
    b ← lift (
        write_connection_data h c
          (record { sequence = to.sequence; game_data_size = size; game_data = take size bytes })
          to.shared_key no_buffer)
    send to.client_address b

  -- `for (int i = 1; i < MAX_CLIENTS; i++)`, from `i` with the rounds that are left.
  unfoldable pub propagate_loop : ℕ → ℕ → List ℕ → ℕ → M (Unit {0})
  unfolding send_game_data
  propagate_loop zero i bytes size = modify (λ s. s)
  propagate_loop (suc left) i bytes size = do
    there ← get (λ s. get_or s.connected i false)
    if there then send_game_data i bytes size else modify (λ s. s)
    propagate_loop left (i + 1) bytes size

  unfoldable pub propagate_game_data : List ℕ → ℕ → M (Unit {0})
  unfolding propagate_loop
  propagate_game_data bytes size = propagate_loop 3 1 bytes size

  abbrev pub touch_if : Bool → ConnectionInfo → ConnectionInfo
  touch_if there e = if there then record e { last_received_packet = now } else e

  abbrev pub touch : ℕ → Server → Server
  touch i s = record s {
    connections = set s.connections i (touch_if (get_or s.connected i false) (connection_at s i));
  }

  unfoldable pub switch_to_game : Server → Server
  switch_to_game s = touch 3 (touch 2 (touch 1 (record s { state = game })))

abbrev pub switch_to_lobby : Server → Server
switch_to_lobby s = record s { state = lobby }

-- `GetConnectedClientCount`
abbrev pub get_connected_client_count : Server → ℤ
get_connected_client_count s = s.num_connections
