-- ===== src/Exports/Addresses.antt =====
-- The exported functions of Address.cpp.
use game_network.Base.{ℕ, Option, none, some, List}
use game_network.Platform.{Host}
use game_network.Address.{
  Address, from_octets, get_a, get_b, get_c, get_d, get_address, get_n_port, get_port,
}
use game_network.Address.Text.{TextAddress, from_text, to_text}
use game_network.Exports.{ask_object}

-- `Internal_AddressCreate_uchar`, `Internal_AddressCreate_uint` and `Internal_AddressCreateCopy`
abbrev pub address_create_uchar : ℕ → ℕ → ℕ → ℕ → ℕ → Option Address
address_create_uchar a b c d port = some (from_octets a b c d port)

abbrev pub address_create_uint : ℕ → ℕ → Option Address
address_create_uint address port = some (record { address = address; port = port })

abbrev pub address_create_copy : Address → Option Address
address_create_copy other = some (record { address = other.address; port = other.port })

-- `Internal_AddressCreate_char`
abbrev pub address_create_char : Host → TextAddress → List ℕ → ℕ → Option Address
address_create_char h w text port = some (from_text h w text port)

-- `Internal_AddressDestroy`: what is left of the object. The assignment of `nullptr` is to the
-- parameter alone.
abbrev pub address_destroy : Option Address → Option Address
address_destroy none = none
address_destroy (some a) = none

-- `Internal_AddressGetAddress` and `Internal_AddressGetNPort`, in network order.
abbrev pub address_get_address : Host → Option Address → ℕ
address_get_address h = ask_object 0 (get_address h)

abbrev pub address_get_n_port : Host → Option Address → ℕ
address_get_n_port h = ask_object 0 (get_n_port h)

-- `Internal_AddressGetPort`
abbrev pub address_get_port : Option Address → ℕ
address_get_port = ask_object 0 get_port

-- `Internal_AddressGetA`, and so on.
abbrev pub address_get_a : Option Address → ℕ
address_get_a = ask_object 0 get_a

abbrev pub address_get_b : Option Address → ℕ
address_get_b = ask_object 0 get_b

abbrev pub address_get_c : Option Address → ℕ
address_get_c = ask_object 0 get_c

abbrev pub address_get_d : Option Address → ℕ
address_get_d = ask_object 0 get_d

-- A pointer to characters, which may be to those of an object that is no more.
pub data Characters : Type 0 where
  null : Characters
  released : List ℕ → Characters

-- `Internal_AddressToString`: `c_str` of a temporary string, whose lifetime ends with the `return`.
abbrev pub address_to_string : Option Address → Characters
address_to_string none = null
address_to_string (some a) = released (to_text a)
