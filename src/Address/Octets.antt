-- ===== src/Address/Octets.antt =====
-- The octets of an address.
use game_network.Base.{ℕ, ◌+◌, ◌*◌, ◌/◌, ◌%◌, ◌^◌, ◌<◌, ◌≡◌, refl, ◌↔◌, arith, bit_and, true, not}
use game_network.Base.Bits.{bit_or_fields, bit_and_step, bit_and-one}
use game_network.Address.{
  Address, from_octets, get_a, get_b, get_c, get_d, same_address, other_address,
}

-- The mask of a number's low bits, one bit at a time.
low_bits3 : (a : ℕ) → bit_and a 3 ≡ a % 4
low_bits3 a = omega (arith, bit_and_step a 3, bit_and-one (a / 2))

low_bits7 : (a : ℕ) → bit_and a 7 ≡ a % 8
low_bits7 a = omega (arith, bit_and_step a 7, low_bits3 (a / 2))

low_bits15 : (a : ℕ) → bit_and a 15 ≡ a % 16
low_bits15 a = omega (arith, bit_and_step a 15, low_bits7 (a / 2))

low_bits31 : (a : ℕ) → bit_and a 31 ≡ a % 32
low_bits31 a = omega (arith, bit_and_step a 31, low_bits15 (a / 2))

low_bits63 : (a : ℕ) → bit_and a 63 ≡ a % 64
low_bits63 a = omega (arith, bit_and_step a 63, low_bits31 (a / 2))

low_bits127 : (a : ℕ) → bit_and a 127 ≡ a % 128
low_bits127 a = omega (arith, bit_and_step a 127, low_bits63 (a / 2))

pub low_byte : (a : ℕ) → bit_and a 0xff ≡ a % 256
low_byte a = omega (arith, bit_and_step a 0xff, low_bits127 (a / 2))

from_octets-eq :
    (a b c d port : ℕ)
    → a < 256
    → b < 256
    → c < 256
    → d < 256
    → (from_octets a b c d port).address ≡ a * 2 ^ 24 + b * 2 ^ 16 + c * 2 ^ 8 + d
unfolding from_octets
from_octets-eq a b c d port p q r s =
    let low : b * 2 ^ 16 < 2 ^ 24 = omega arith in
    let second : a * 2 ^ 24 + b * 2 ^ 16 ≡ (a * 256 + b) * 2 ^ 16 = omega arith in
    let third : (a * 256 + b) * 2 ^ 16 + c * 2 ^ 8 ≡ (a * 65536 + b * 256 + c) * 2 ^ 8 =
      omega arith in
    rw
      (
        bit_or_fields 24 a (b * 2 ^ 16) low,
        second,
        bit_or_fields 16 (a * 256 + b) (c * 2 ^ 8) (omega arith),
        third,
        bit_or_fields 8 (a * 65536 + b * 256 + c) d s,
      )
      (omega arith)

-- An address made of four octets gives them back, each in its place, and its port.
pub octets_roundtrip :
    (a b c d port : ℕ)
    → a < 256
    → b < 256
    → c < 256
    → d < 256
    → let x = from_octets a b c d port in
      (get_a x ≡ a) × (get_b x ≡ b) × (get_c x ≡ c) × (get_d x ≡ d) × (x.port ≡ port)
octets_roundtrip a b c d port p q r s =
    let x = from_octets a b c d port in
    let e = from_octets-eq a b c d port p q r s in
    (
      omega arith,
      omega (arith, low_byte (x.address / 2 ^ 16)),
      omega (arith, low_byte (x.address / 2 ^ 8)),
      omega (arith, low_byte x.address),
      unfold from_octets in refl,
    )

-- Two addresses are the same exactly when they are equal, and other exactly when not the same.
pub same_address_iff :
    (x y : Address)
    → ((same_address x y ≡ true) ↔ (x ≡ y)) × (other_address x y ≡ not (same_address x y))
same_address_iff x y = (ground arith, ground arith)
