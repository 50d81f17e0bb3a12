-- ===== src/Platform.antt =====
-- What the program calls and does not implement: WinSock's byte order functions, the memory that
-- `new[]` returns, and the libraries NGCrypto and NGMP.
use mathlib.Core.List.{List}
use game_network.Base.{ℕ, ◌+◌, ◌-◌, ◌/◌, ◌^◌, ◌≤◌, ◌<◌, ◌≡◌, length, drop, replicate}
use game_network.Base.Bytes.{le_bytes, be_bytes, le_value, AreBytes}

-- `htonl` and `ntohl`, and their like at other widths, on a host that is little-endian: the number
-- `hton v` has in memory the bytes of `v` in network order, most significant first; `ntoh` reads
-- them back.
pub record ByteOrder (n : ℕ) : Type 0 where
  pub hton : ℕ → ℕ
  pub ntoh : ℕ → ℕ
  pub hton_bytes : (v : ℕ) → v < 256 ^ n → le_bytes n (hton v) ≡ be_bytes n v
  pub ntoh_bytes : (v : ℕ) → v < 256 ^ n → ntoh (le_value (be_bytes n v)) ≡ v

-- `short`, `long` and `long_long` are htons and ntohs, htonl and ntohl, htonll and ntohll.
pub record Host : Type 0 where
  pub short : ByteOrder 2
  pub long : ByteOrder 4
  pub long_long : ByteOrder 8
  -- What `new uint8_t[n]` holds before anything is written to it.
  pub fresh : ℕ → List ℕ
  pub length_fresh : (n : ℕ) → length (fresh n) ≡ n

-- NGCrypto and NGMP. A key is the memory of its number, as `Get64BitArray` gives it.
pub record Crypto : Type 0 where
  -- PUBLIC_KEY_SIZE, in bits, and the bytes that the memory of a public key has.
  pub public_key_size : ℕ
  pub key_memory : ℕ
  pub key_fits : (public_key_size + 7) / 8 ≤ key_memory
  -- Hash::HMAC::SIZE; `hmac key message` is HMAC_SHA256.
  pub hmac_size : ℕ
  pub hmac : List ℕ → List ℕ → List ℕ
  pub length_hmac : (key message : List ℕ) → length (hmac key message) ≡ hmac_size

-- KeyExchange::DiffieHellman and Hash::SHA256. Pairs are drawn from a source of randomness, of
-- which the caller gives a state. Two ends that have each other's public key share one number.
pub record KeyExchange : Type 0 where
  pub private_of : ℕ → List ℕ
  pub public_of : ℕ → List ℕ
  pub shared : List ℕ → List ℕ → List ℕ
  pub sha256 : List ℕ → List ℕ
  pub agree : (x y : ℕ) → shared (public_of x) (private_of y) ≡ shared (public_of y) (private_of x)

-- `ShortSharedKey`, an array of the bytes of a SHA-256 hash, when it is zeros.
abbrev pub no_shared_key : List ℕ
no_shared_key = replicate 32 0

-- A public key is below 2 ^ PUBLIC_KEY_SIZE: of the bytes of its memory, those behind the rounded
-- size are zeros. A packet with the key and a signature fits the 1024 bytes that a receiver has for
-- a datagram.
pub record KeySizes (c : Crypto) (x : KeyExchange) : Type 0 where
  pub length_public : (n : ℕ) → length (x.public_of n) ≡ c.key_memory
  pub public_bytes : (n : ℕ) → AreBytes (x.public_of n)
  pub public_rest :
      (n : ℕ)
      → drop ((c.public_key_size + 7) / 8) (x.public_of n)
        ≡ replicate (c.key_memory - (c.public_key_size + 7) / 8) 0
  pub small : (c.public_key_size + 7) / 8 + c.hmac_size + 9 ≤ 1024
