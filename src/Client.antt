-- ===== src/Client.antt =====
-- Client.h and Client.cpp: the client's state machine, without its exports.
--
-- What `Receive` returns, the times at which `clock::now` is read and the state of the randomness
-- come in as arguments or in the state; what goes to `Send` is kept in the order of the calls. The
-- thread that `HandlePacket` starts for `RespondChallenge` is counted, and runs as a step of its own,
-- at any time between two calls. The messages of `g_debugCallback` are left out.
pub mod Listen
pub mod Joining
pub mod Data
pub mod Leaving
pub mod Memory
pub mod Strangers
pub mod Closed
pub mod Hearing
pub mod Machine
pub mod Traces
pub mod Invariant
use game_network.Base.{
  ℕ, zero, suc, ◌+◌, ◌-◌, ◌%◌, ◌/◌, ◌^◌, Bool, true, false, ◌||◌, if◌then◌else◌, List, [], ◌∷◌,
  ◌++◌, Option, none, some, take, Result, ok, throws, fault, out_of_range, exception_pointer,
}
use game_network.Base.Int.{ℤ, negsuc, to_unsigned}
use game_network.Base.Methods.{Method, ◌>>=◌, ◌>>◌, lift, modify, get}
use game_network.Platform.{Host, Crypto, KeyExchange, no_shared_key}
use game_network.Address.{Address, no_address}
use game_network.Buffer.{Buffer, no_buffer, load, to_int}
use game_network.Crc.{Statics}
use game_network.Packet.{
  write_connection_request, write_challenge_response, write_connection_data, write_disconnect,
}

pub data ClientState : Type 0 where
  disconnected sending_request sending_challenge_response connected : ClientState

-- `responding` is the number of threads that are to run `RespondChallenge`.
pub record Client : Type 0 where
  pub private_key : List ℕ
  pub public_key : List ℕ
  pub shared_key : List ℕ
  pub server_address : Address
  pub index : ℤ
  pub state : ClientState
  pub last_received_packet : ℕ
  pub sequence : ℕ
  pub ack : ℕ
  pub active_timeout : Bool
  pub responding : ℕ
  -- The checksum's table, the state of the randomness, and what has gone out.
  pub statics : Statics
  pub entropy : ℕ
  pub sent : List (Address × List ℕ)

-- A method of the client.
abbrev pub C : Type 0 → Type 0
C A = Method Client A

abbrev pub is_disconnected : ClientState → Bool
is_disconnected disconnected = true
is_disconnected _ = false

abbrev pub is_sending_request : ClientState → Bool
is_sending_request sending_request = true
is_sending_request _ = false

abbrev pub is_sending_challenge_response : ClientState → Bool
is_sending_challenge_response sending_challenge_response = true
is_sending_challenge_response _ = false

abbrev pub is_connected : ClientState → Bool
is_connected connected = true
is_connected _ = false

-- `{INADDR_BROADCAST, SERVER_PORT}`
abbrev pub broadcast_address : Address
broadcast_address = record { address = 2 ^ 32 - 1; port = 8755 }

-- `Client()`, with the statics and the randomness as they are then. `SetupBroadcastSocket` opens the
-- socket; where that fails there is a message.
unfoldable pub new_client : Statics → ℕ → Client
new_client statics entropy = record {
  private_key = [];
  public_key = [];
  shared_key = no_shared_key;
  server_address = no_address;
  index = negsuc 0;
  state = disconnected;
  last_received_packet = 0;
  sequence = 0;
  ack = 0;
  active_timeout = false;
  responding = 0;
  statics = statics;
  entropy = entropy;
  sent = [];
}

abbrev pub send_bytes : Address → Option (List ℕ) → C (Unit {0})
send_bytes a none s = (s, fault)
send_bytes a (some bytes) s = (record s { sent = s.sent ++ (a, bytes) ∷ [] }, ok tt)

-- `m_socket.Send(address, packet.data, packet.size)`
unfoldable pub send : Address → Buffer → C (Unit {0})
send a b = send_bytes a (load 0 (to_unsigned b.size) b.memory)

-- `catch(std::exception&)`, which no pointer reaches.
abbrev pub caught : Client × Result (Unit {0}) → Client × Result (Unit {0})
caught (s, throws out_of_range) = (s, ok tt)
caught (s, throws exception_pointer) = (s, throws exception_pointer)
caught (s, fault) = (s, fault)
caught (s, ok u) = (s, ok u)

abbrev set_state : ClientState → Client → Client
set_state state s = record s { state = state }

-- `Disconnect`
unfoldable pub disconnect : Client → Client
disconnect s = record s {
  shared_key = no_shared_key;
  server_address = no_address;
  state = disconnected;
}

module _ (h : Host) (c : Crypto) (x : KeyExchange) where
  -- `GenerateKeyPair(m_privateKey, m_publicKey)`
  unfoldable pub generate_keys : Client → Client
  generate_keys s = record s {
    private_key = x.private_of s.entropy;
    public_key = x.public_of s.entropy;
    entropy = s.entropy + 1;
  }

  -- `Connect`, where the client is disconnected.
  unfoldable pub send_request : C (Unit {0})
  unfolding generate_keys send
  send_request = do
    modify (generate_keys)
    key ← get (λ s. s.public_key)
    statics ← get (λ s. s.statics)
    (b, statics') ← lift (write_connection_request h c key statics no_buffer)
    modify (λ s. record s { statics = statics'; state = sending_request })
    send broadcast_address b

  unfoldable pub connect : C (Unit {0})
  unfolding send_request
  connect s = if is_disconnected s.state then caught (send_request s) else (s, ok tt)

  unfoldable pub send_response : C (Unit {0})
  unfolding send
  send_response = do
    key ← get (λ s. s.shared_key)
    b ← lift (write_challenge_response h c key no_buffer)
    modify (set_state sending_challenge_response)
    to ← get (λ s. s.server_address)
    send to b

  -- `RespondChallenge`
  unfoldable pub respond_challenge : C (Unit {0})
  unfolding send_response
  respond_challenge s = caught (send_response s)

  -- `for(int i = 0; i < 10; ++i)` of `SendDisconnect`.
  unfoldable pub send_times : ℕ → Address → Buffer → C (Unit {0})
  unfolding send
  send_times zero a b = modify (λ s. s)
  send_times (suc n) a b = do send a b; send_times n a b

  unfoldable pub send_leave : C (Unit {0})
  unfolding send_times
  send_leave = do
    key ← get (λ s. s.shared_key)
    b ← lift (write_disconnect h c key no_buffer)
    to ← get (λ s. s.server_address)
    send_times 10 to b

  -- `SendDisconnect`
  unfoldable pub send_disconnect : C (Unit {0})
  unfolding send_leave disconnect
  send_disconnect s =
      if is_disconnected s.state || is_sending_request s.state
      then (disconnect s, ok tt)
      else caught ((do send_leave; modify disconnect) s)

  -- `HandlePacket(const ChallengePacket&)`
  unfoldable pub handle_challenge : List ℕ → Client → Client
  handle_challenge server_key s = record s {
    shared_key = x.sha256 (take (c.public_key_size / 8) (x.shared server_key s.private_key));
    responding = s.responding + 1;
  }

  -- `HandlePacket(const ConnectionAcceptedPacket&)`
  unfoldable pub handle_accepted : ℕ → Client → Client
  handle_accepted client_id s = record s { index = to_int client_id; state = connected }

  -- `SendGameData`, where the client is connected. `sends` is what `Send` returns.
  unfoldable pub send_own_data : Bool → List ℕ → ℕ → C Bool
  unfolding send
  send_own_data sends bytes size = do
    modify (λ s. record s { sequence = (s.sequence + 1) % 2 ^ 16 })
    from ← get (λ s. s)
    b ← lift (
        write_connection_data h c
          (record { sequence = from.sequence; game_data_size = size; game_data = take size bytes })
          from.shared_key no_buffer)
    send from.server_address b
    lift (ok sends)

  unfoldable pub send_game_data : Bool → List ℕ → ℕ → C Bool
  unfolding send_own_data
  send_game_data sends bytes size s =
      if is_connected s.state then send_own_data sends bytes size s else (s, ok false)

  -- `~Client`, less the socket's closing.
  unfoldable pub destroy_client : C (Unit {0})
  unfolding send_disconnect
  destroy_client s = if is_connected s.state then send_disconnect s else (s, ok tt)

abbrev pub set_active_timeout : Bool → Client → Client
set_active_timeout value s = record s { active_timeout = value }

-- `GetIndex` and `GetState`
abbrev pub get_index : Client → ℤ
get_index s = s.index

abbrev pub get_state : Client → ClientState
get_state s = s.state
