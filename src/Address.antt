-- ===== src/Address.antt =====
-- Address.h and Address.cpp: an IPv4 address and a port, in host order.
pub mod Octets
pub mod Decimal
pub mod Text
use game_network.Base.{
  ℕ, ◌*◌, ◌/◌, ◌%◌, ◌^◌, bit_and, bit_or, Bool, if◌then◌else◌, List, get_or, set, ◌&&◌, ◌||◌, not,
  ◌==◌,
}
use game_network.Platform.{Host}

pub record Address : Type 0 where
  pub address : ℕ
  pub port : ℕ

-- `Address()`
abbrev pub no_address : Address
no_address = record { address = 0; port = 0 }

-- The constructor from four octets; the cast is to `unsigned int`.
unfoldable pub from_octets : ℕ → ℕ → ℕ → ℕ → ℕ → Address
from_octets a b c d port = record {
  address = bit_or (bit_or (bit_or (a * 2 ^ 24) (b * 2 ^ 16)) (c * 2 ^ 8)) d % 2 ^ 32;
  port = port;
}

abbrev pub get_a : Address → ℕ
get_a x = x.address / 2 ^ 24 % 2 ^ 8

abbrev pub get_b : Address → ℕ
get_b x = bit_and (x.address / 2 ^ 16) 0xff

abbrev pub get_c : Address → ℕ
get_c x = bit_and (x.address / 2 ^ 8) 0xff

abbrev pub get_d : Address → ℕ
get_d x = bit_and x.address 0xff

-- The move constructor.
abbrev pub moved : Address → Address
moved other = record { address = other.address; port = other.port }

-- `operator=` from a reference and from a temporary, between two objects of a store.
unfoldable pub assign : ℕ → ℕ → List Address → List Address
assign to from store =
    if to == from
    then store
    else set store to (record {
      address = (get_or store from no_address).address;
      port = (get_or store from no_address).port;
    })

-- `GetPort`
abbrev pub get_port : Address → ℕ
get_port x = x.port

-- `GetAddress` and `GetNPort`, in network order.
abbrev pub get_address : Host → Address → ℕ
get_address h x = h.long.hton x.address

abbrev pub get_n_port : Host → Address → ℕ
get_n_port h x = h.short.hton x.port

-- `operator==` and `operator!=`
abbrev pub same_address : Address → Address → Bool
same_address x y = (x.address == y.address) && (x.port == y.port)

abbrev pub other_address : Address → Address → Bool
other_address x y = not (x.address == y.address) || not (x.port == y.port)
