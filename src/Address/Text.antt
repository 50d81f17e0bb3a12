-- ===== src/Address/Text.antt =====
-- The texts of an address: the constructor from one, and `ToString`.
use game_network.Base.{
  ℕ, zero, suc, ◌+◌, ◌*◌, ◌/◌, ◌%◌, ◌^◌, ◌<◌, ◌≡◌, refl, sym, ap, ap₂, get_or, ◌∙◌, arith, List, [],
  ◌∷◌, ◌++◌, Option, none, some, drop, append_assoc,
}
use game_network.Base.Bytes.{le_value, be_bytes}
use game_network.Platform.{Host}
use game_network.Address.{Address, get_a, get_b, get_c, get_d}
use game_network.Address.Decimal.{
  to_string, read_digits, read_digits-to_string, read_digits-to_string_end,
}
use game_network.Address.Octets.{low_byte}

-- `a.b.c.d`
abbrev pub dotted : ℕ → ℕ → ℕ → ℕ → List ℕ
dotted a b c d = to_string a ++ b'.' ∷ (to_string b ++ b'.' ∷ (to_string c ++ b'.' ∷ to_string d))

-- WinSock's `inet_pton` for AF_INET: the bytes that it stores, in network order, or none where the
-- text is no address. Four numbers below 256, with dots between them, are one.
pub record TextAddress : Type 0 where
  pub inet_pton : List ℕ → Option (List ℕ)
  pub inet_pton_dotted :
      (a b c d : ℕ)
      → a < 256
      → b < 256
      → c < 256
      → d < 256
      → inet_pton (dotted a b c d) ≡ some (a ∷ b ∷ c ∷ d ∷ [])

module _ (h : Host) (w : TextAddress) where
  -- What `m_address` has behind the call: it is 0 before.
  abbrev pub stored_address : Option (List ℕ) → ℕ
  stored_address none = 0
  stored_address (some bytes) = le_value bytes

  -- The constructor from a text. Where `inet_pton` refuses it, the address stays 0.
  unfoldable pub from_text : List ℕ → ℕ → Address
  from_text text port = record {
    address = h.long.ntoh (stored_address (w.inet_pton text));
    port = port;
  }

-- `ToString`
unfoldable pub to_text : Address → List ℕ
to_text x =
    to_string (get_a x)
    ++ b'.'
      ∷ (to_string (get_b x)
          ++ b'.'
            ∷ (to_string (get_c x) ++ b'.' ∷ (to_string (get_d x) ++ b':' ∷ to_string x.port)))

-- The numbers that a text shows, with one character between them.
unfoldable pub numbers : ℕ → List ℕ → List ℕ
unfolding read_digits
numbers zero s = []
numbers (suc n) s = let (value, rest) = read_digits 0 s in value ∷ numbers n (drop 1 rest)

-- The numbers of a dotted text.
pub numbers-dotted :
    (a b c d : ℕ)
    → a < 256
    → b < 256
    → c < 256
    → d < 256
    → numbers 4 (dotted a b c d) ≡ a ∷ b ∷ c ∷ d ∷ []
unfolding numbers
numbers-dotted a b c d p q r s =
    rw
      (
        read_digits-to_string a b'.' _ (omega arith) refl,
        read_digits-to_string b b'.' _ (omega arith) refl,
        read_digits-to_string c b'.' _ (omega arith) refl,
        read_digits-to_string_end d (omega arith),
      )
      refl

module _ (x : Address) (fits : x.address < 2 ^ 32) where
  get_a-lt : get_a x < 256
  get_a-lt = omega arith

  get_b-lt : get_b x < 256
  get_b-lt = omega (arith, low_byte (x.address / 2 ^ 16))

  get_c-lt : get_c x < 256
  get_c-lt = omega (arith, low_byte (x.address / 2 ^ 8))

  get_d-lt : get_d x < 256
  get_d-lt = omega (arith, low_byte x.address)

  -- An address is made of its octets.
  by_octets : x.address ≡ get_a x * 2 ^ 24 + get_b x * 2 ^ 16 + get_c x * 2 ^ 8 + get_d x
  by_octets =
      omega (arith, low_byte (x.address / 2 ^ 16), low_byte (x.address / 2 ^ 8), low_byte x.address)

  numbers-to_text :
      x.port < 2 ^ 16 → numbers 5 (to_text x) ≡ get_a x ∷ get_b x ∷ get_c x ∷ get_d x ∷ x.port ∷ []
  unfolding numbers to_text
  numbers-to_text small =
      rw
        (
          read_digits-to_string (get_a x) b'.' _ (omega (arith, get_a-lt)) refl,
          read_digits-to_string (get_b x) b'.' _ (omega (arith, get_b-lt)) refl,
          read_digits-to_string (get_c x) b'.' _ (omega (arith, get_c-lt)) refl,
          read_digits-to_string (get_d x) b':' _ (omega (arith, get_d-lt)) refl,
          read_digits-to_string_end x.port (omega arith),
        )
        refl

abbrev nth : ℕ → List ℕ → ℕ
nth n xs = get_or xs n 0

abbrev octets_value : List ℕ → ℕ
octets_value xs = nth 0 xs * 2 ^ 24 + nth 1 xs * 2 ^ 16 + nth 2 xs * 2 ^ 8 + nth 3 xs

-- Two addresses of 32 bits, with ports of 16, that `ToString` shows by the same text are equal.
pub to_text-injective :
    (x y : Address)
    → x.address < 2 ^ 32
    → y.address < 2 ^ 32
    → x.port < 2 ^ 16
    → y.port < 2 ^ 16
    → to_text x ≡ to_text y
    → x ≡ y
to_text-injective x y p q r s e =
    let same : (get_a x ∷ get_b x ∷ get_c x ∷ get_d x ∷ x.port ∷ [])
        ≡ (get_a y ∷ get_b y ∷ get_c y ∷ get_d y ∷ y.port ∷ []) =
      sym (numbers-to_text x p r) ∙ ap (numbers 5) e ∙ numbers-to_text y q s in
    let value : x.address ≡ y.address =
      by_octets x p ∙ ap octets_value same ∙ sym (by_octets y q) in
    let number : x.port ≡ y.port = ap (nth 4) same in
    ap₂ (λ a n. record { address = a; port = n }) value number

-- What `inet_pton` stores for the octets of an address.
octets_bytes :
    (x : Address)
    → x.address < 2 ^ 32
    → be_bytes 4 x.address ≡ get_a x ∷ get_b x ∷ get_c x ∷ get_d x ∷ []
unfolding be_bytes
octets_bytes x fits =
    let a : x.address / 256 / 256 / 256 % 256 ≡ get_a x = omega arith in
    let b : x.address / 256 / 256 % 256 ≡ get_b x = omega (arith, low_byte (x.address / 2 ^ 16)) in
    let c : x.address / 256 % 256 ≡ get_c x = omega (arith, low_byte (x.address / 2 ^ 8)) in
    let d : x.address % 256 ≡ get_d x = omega (arith, low_byte x.address) in
    ap₂ ◌∷◌ a (ap₂ ◌∷◌ b (ap₂ ◌∷◌ c (ap₂ ◌∷◌ d refl)))

module _ (h : Host) (w : TextAddress) where
  -- An address of 32 bits is shown as its dotted text, a colon and its port, and the constructor
  -- makes the same address again of that dotted text and the port.
  pub text_roundtrip :
      (x : Address)
      → x.address < 2 ^ 32
      → let text = dotted (get_a x) (get_b x) (get_c x) (get_d x) in
        (to_text x ≡ text ++ b':' ∷ to_string x.port) × (from_text h w text x.port ≡ x)
  unfolding to_text from_text
  text_roundtrip x fits = (
    simp append_assoc,
    ap (λ a. record { address = a; port = x.port })
        (ap (λ o. h.long.ntoh (stored_address h w o))
            (w.inet_pton_dotted (get_a x) (get_b x) (get_c x) (get_d x) (get_a-lt x fits)
              (get_b-lt x fits) (get_c-lt x fits) (get_d-lt x fits))
          ∙ ap (λ bs. h.long.ntoh (le_value bs)) (sym (octets_bytes x fits))
          ∙ h.long.ntoh_bytes x.address (omega arith)),
  )

  -- A text that `inet_pton` refuses makes the address 0.0.0.0.
  pub from_text-refused :
      (text : List ℕ) (port : ℕ)
      → w.inet_pton text ≡ none
      → from_text h w text port ≡ record { address = 0; port = port }
  unfolding from_text be_bytes le_value
  from_text-refused text port e =
      ap (λ a. record { address = a; port = port })
        (ap (λ o. h.long.ntoh (stored_address h w o)) e ∙ h.long.ntoh_bytes 0 (omega arith))
