-- ===== src/Tests.antt =====
-- The theorems at concrete inputs: a host and small stand-ins for the cryptography that keep its
-- documented sizes, and packets, buffers and servers of a few entries.
pub mod Ends
pub mod Clients
pub mod Sockets
pub mod Programs
pub mod Packets
pub mod Servers
use game_network.Base.{
  ℕ, ◌+◌, ◌*◌, ◌%◌, ◌≡◌, refl, sym, ap, ◌∙◌, arith, true, false, List, [], ◌∷◌, ◌++◌, some,
  replicate, length-replicate, ◌>>=◌,
}
use game_network.Base.Int.{pos}
use game_network.Base.Bytes.{
  le_bytes, be_bytes, le_value, be_value, le_bytes-le_value, be_bytes-AreBytes, length-be_bytes,
  be_value-be_bytes,
}
use game_network.Platform.{ByteOrder, Host, Crypto, KeyExchange}
use game_network.Address.{Address}
use game_network.Crc.{program_start}
use game_network.Crc.Table
use game_network.Packet.{ConnectionDataPacket, disconnect}
use game_network.Packet.Header.{header}
use game_network.Packet.Control.{sent}
use game_network.Packet.Checked.{checksum}
use game_network.Server.{Server, ChallengeInfo, lobby, no_challenge, no_connection}
use game_network.Server.Invariant

pub stored : (n v : ℕ) → le_bytes n (le_value (be_bytes n v)) ≡ be_bytes n v
stored n v =
    ap (λ k. le_bytes k (le_value (be_bytes n v))) (sym (length-be_bytes n v))
    ∙ le_bytes-le_value (be_bytes n v) (be_bytes-AreBytes n v)

abbrev pub swapped : (n : ℕ) → ByteOrder n
swapped n = record {
  hton = λ v. le_value (be_bytes n v);
  ntoh = λ v. be_value 0 (le_bytes n v);
  hton_bytes = λ v p. stored n v;
  ntoh_bytes = λ v p. ap (be_value 0) (stored n v) ∙ be_value-be_bytes n v p;
}

abbrev pub host : Host
host = record {
  short = swapped 2;
  long = swapped 4;
  long_long = swapped 8;
  fresh = λ n. replicate n 0;
  length_fresh = λ n. length-replicate n 0;
}

abbrev pub folded : List ℕ → ℕ
folded [] = 7
folded (b ∷ bs) = (b + 3 * folded bs) % 256

-- A key of two bytes, and a signature of two.
abbrev pub crypto : Crypto
crypto = record {
  public_key_size = 16;
  key_memory = 2;
  key_fits = omega arith;
  hmac_size = 2;
  hmac = λ key text. folded key ∷ folded (key ++ text) ∷ [];
  length_hmac = λ key text. refl;
}

abbrev pub first : List ℕ → ℕ
first [] = 0
first (b ∷ bs) = b

abbrev pub exchange : KeyExchange
exchange = record {
  private_of = λ n. n ∷ [];
  public_of = λ n. n % 256 ∷ 0 ∷ [];
  shared = λ xs ys. (first xs + first ys) % 256 ∷ 0 ∷ [];
  sha256 = λ xs. xs;
  agree = λ x y. ap (λ n. n ∷ 0 ∷ []) (omega arith);
}

abbrev pub key : List ℕ
key = 5 ∷ 9 ∷ []

abbrev pub data_packet : ConnectionDataPacket
data_packet = record { sequence = 513; game_data_size = 3; game_data = 1 ∷ 2 ∷ 3 ∷ [] }

-- A disconnect packet with a byte behind its header.
abbrev pub leave_text : List ℕ
leave_text = header disconnect ++ 8 ∷ []

abbrev pub words : List ℕ
words = 65535 ∷ 1 ∷ 770 ∷ []

abbrev pub alice : Address
alice = record { address = 3232235777; port = 8756 }

abbrev pub bob : Address
bob = record { address = 3232235778; port = 8756 }

-- The number in front of a request with no key, and the check of that packet.
abbrev pub request_crc : ℕ
request_crc = (checksum (1 ∷ [])).value

abbrev pub alice_challenge : ChallengeInfo
alice_challenge = record (no_challenge 0) {
  client_address = alice;
  client_public_key = 4 ∷ [];
  shared_key_future = some key;
}

-- Bob plays in the third slot, and Alice is being challenged in the second.
abbrev pub busy : Server
busy = record {
  challenges = no_challenge 0 ∷ alice_challenge ∷ no_challenge 0 ∷ no_challenge 0 ∷ [];
  connections =
      no_connection 0
      ∷ no_connection 0
      ∷ record (no_connection 0) { client_address = bob }
      ∷ no_connection 0
      ∷ [];
  connected = true ∷ false ∷ true ∷ false ∷ [];
  challenged = false ∷ true ∷ false ∷ false ∷ [];
  has_callback = false;
  num_connections = pos 2;
  state = lobby;
  statics = program_start;
  entropy = 3;
  sent = [];
  announced = [];
}

pub busy-IsValid : Invariant.IsValid busy
busy-IsValid = record {
  challenges_size = refl;
  connections_size = refl;
  connected_size = refl;
  challenged_size = refl;
  host_connected = refl;
}
