-- ===== src/Server.antt =====
-- Server.h and Server.cpp: the tables of challenges and connections, and the handlers.
--
-- The arrays are lists of MAX_CLIENTS entries. What `Receive` returns, the time and the state of
-- the randomness come in as arguments or in the state; what goes to `Send` and to the connect
-- callback is kept in the order of the calls. A future holds the value that its task computes from
-- the entry as it is when the task is made. The messages of `g_debugCallback` are left out.
pub mod Handlers
pub mod Listen
pub mod Slots
pub mod Invariant
pub mod Preservation
pub mod Hearing
pub mod Joining
pub mod Challenging
pub mod Accepting
pub mod Data
pub mod Propagation
pub mod Queries
pub mod Counting
pub mod Keyed
pub mod Answering
pub mod Surviving
pub mod Evicting
pub mod Leaving
use game_network.Base.{
  ℕ, zero, suc, ◌+◌, Bool, true, false, ◌&&◌, if◌then◌else◌, List, [], ◌∷◌, ◌++◌, Option, none,
  some, get_or, set, ok, fault,
}
use game_network.Base.Int.{as_int, ℤ, pos, negsuc, to_unsigned, sub_one_ℤ, is_positive, is_index}
use game_network.Base.Methods.{Method}
use game_network.Platform.{no_shared_key}
use game_network.Address.{Address, no_address, same_address}
use game_network.Buffer.{Buffer, load}
use game_network.Crc.{Statics}

pub data ServerState : Type 0 where
  lobby game : ServerState

pub record ChallengeInfo : Type 0 where
  pub client_address : Address
  pub client_public_key : List ℕ
  pub server_public_key : List ℕ
  pub server_private_key : List ℕ
  pub shared_key_future : Option (List ℕ)
  pub shared_key : List ℕ
  pub last_received_packet : ℕ

pub record ConnectionInfo : Type 0 where
  pub client_address : Address
  pub shared_key : List ℕ
  pub last_received_packet : ℕ
  pub sequence : ℕ
  pub ack : ℕ

pub record Server : Type 0 where
  pub challenges : List ChallengeInfo
  pub connections : List ConnectionInfo
  pub connected : List Bool
  pub challenged : List Bool
  pub has_callback : Bool
  pub num_connections : ℤ
  pub state : ServerState
  -- The checksum's table, the state of the randomness, and what has gone out.
  pub statics : Statics
  pub entropy : ℕ
  pub sent : List (Address × List ℕ)
  pub announced : List ℕ

abbrev pub max_clients : ℕ
max_clients = 4

abbrev pub server_port : ℕ
server_port = 8755

-- `{}`, made at the time `now`.
abbrev pub no_challenge : ℕ → ChallengeInfo
no_challenge now = record {
  client_address = no_address;
  client_public_key = [];
  server_public_key = [];
  server_private_key = [];
  shared_key_future = none;
  shared_key = no_shared_key;
  last_received_packet = now;
}

abbrev pub no_connection : ℕ → ConnectionInfo
no_connection now = record {
  client_address = no_address;
  shared_key = no_shared_key;
  last_received_packet = now;
  sequence = 0;
  ack = 0;
}

abbrev pub challenge_at : Server → ℕ → ChallengeInfo
challenge_at s i = get_or s.challenges i (no_challenge 0)

abbrev pub connection_at : Server → ℕ → ConnectionInfo
connection_at s i = get_or s.connections i (no_connection 0)

-- `for (int i = 0; i < MAX_CLIENTS; ++i) if (…) return i; return -1;`, from `i` with the rounds
-- that are left.
unfoldable pub first_index : ℕ → ℕ → (ℕ → Bool) → ℤ
first_index zero i test = negsuc 0
first_index (suc left) i test =
    let rest = first_index left (i + 1) test in if test i then pos i else rest

abbrev pub is_false : Bool → Bool
is_false true = false
is_false false = true

unfoldable pub find_free_connection_index : Server → ℤ
unfolding first_index
find_free_connection_index s =
    first_index max_clients 0 (λ i. is_false (get_or s.connected i false))

unfoldable pub find_free_challenge_index : Server → ℤ
unfolding first_index
find_free_challenge_index s =
    first_index max_clients 0 (λ i. is_false (get_or s.challenged i false))

unfoldable pub find_existing_connection_index : Address → Server → ℤ
unfolding first_index
find_existing_connection_index a s =
    first_index max_clients 0
      (λ i. get_or s.connected i false && same_address (connection_at s i).client_address a)

unfoldable pub find_existing_challenge_index : Address → Server → ℤ
unfolding first_index
find_existing_challenge_index a s =
    first_index max_clients 0
      (λ i. get_or s.challenged i false && same_address (challenge_at s i).client_address a)

-- A method of the server.
abbrev pub M : Type 0 → Type 0
M A = Method Server A

abbrev pub send_bytes : Address → Option (List ℕ) → M (Unit {0})
send_bytes a none s = (s, fault)
send_bytes a (some bytes) s = (record s { sent = s.sent ++ (a, bytes) ∷ [] }, ok tt)

-- `m_socket.Send(address, packet.data, packet.size)`; its result goes to the debug output alone.
unfoldable pub send : Address → Buffer → M (Unit {0})
send a b = send_bytes a (load 0 (to_unsigned b.size) b.memory)

-- `sharedKey = sharedKeyFuture.get()` where the future is valid.
abbrev pub resolved : ChallengeInfo → ChallengeInfo
resolved c = elim c.shared_key_future [
  | none ↦ c
  | some key ↦ record c { shared_key = key; shared_key_future = none }
]

unfoldable pub resolve : ℕ → Server → Server
resolve i s = record s { challenges = set s.challenges i (resolved (challenge_at s i)) }

-- `RemoveClient`. In each condition the variable is declared with the value of the comparison, so
-- that it is 1 where the condition holds.
unfoldable pub remove_client : ℕ → Address → Server → Server
unfolding find_existing_connection_index find_existing_challenge_index
remove_client now a s =
    let client_idx = is_positive (find_existing_connection_index a s) in
    let chall_idx = is_index (find_existing_challenge_index a s) in
    if client_idx
    then record s {
      connected = set s.connected (as_int client_idx) false;
      connections = set s.connections (as_int client_idx) (no_connection now);
      num_connections = sub_one_ℤ s.num_connections;
    }
    else if chall_idx
    then record s {
      challenged = set s.challenged (as_int chall_idx) false;
      challenges = set s.challenges (as_int chall_idx) (no_challenge now);
    }
    else s
