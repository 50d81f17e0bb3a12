-- ===== src/Address/Decimal.antt =====
-- `std::to_string` of an unsigned number, and a reader of what it writes.
use native.Mathlib.Nat.{pow-suc}
use game_network.Base.{
  ℕ, zero, suc, ◌+◌, ◌-◌, ◌*◌, ◌/◌, ◌%◌, ◌^◌, ◌<◌, ◌≡◌, refl, ap, ◌∙◌, Bool, true, false, ◌&&◌,
  List, [], ◌∷◌, ◌++◌, ltb, leb, if◌then◌else◌, Bool-cases, inl, inr, arith,
}

abbrev pub is_digit : ℕ → Bool
is_digit c = leb b'0' c && leb c b'9'

-- The digits of `n` in front of `out`, at most `left` of them.
unfoldable pub digits : ℕ → ℕ → List ℕ → List ℕ
digits zero n out = out
digits (suc left) n out =
    let rest = digits left (n / 10) ((b'0' + n % 10) ∷ out) in
    if ltb n 10 then (b'0' + n % 10) ∷ out else rest

-- Ten digits are enough for 32 bits.
unfoldable pub to_string : ℕ → List ℕ
unfolding digits
to_string n = digits 10 n []

-- The number that a text begins with, and what is behind it.
unfoldable pub read_digits : ℕ → List ℕ → ℕ × List ℕ
read_digits acc [] = (acc, [])
read_digits acc (c ∷ cs) =
    let rest = read_digits (acc * 10 + (c - b'0')) cs in if is_digit c then rest else (acc, c ∷ cs)

digits-append :
    (left n : ℕ) (out more : List ℕ) → digits left n out ++ more ≡ digits left n (out ++ more)
unfolding digits
digits-append zero n out more = refl
digits-append (suc left) n out more = elim (Bool-cases (ltb n 10)) [
  | inl e ↦ rw e refl
  | inr e ↦ rw e (digits-append left (n / 10) ((b'0' + n % 10) ∷ out) more)
]

digit :
    (acc d : ℕ) (out : List ℕ)
    → d < 10
    → read_digits acc ((b'0' + d) ∷ out) ≡ read_digits (acc * 10 + d) out
unfolding read_digits
digit acc d out lt =
    let shown : is_digit (b'0' + d) ≡ true = ground arith in
    let value : acc * 10 + (b'0' + d - b'0') ≡ acc * 10 + d = omega arith in
    rw shown (ap (λ v. read_digits v out) value)

read_digits-digits :
    (left n : ℕ) (out : List ℕ)
    → n < 10 ^ left
    → read_digits 0 (digits left n out) ≡ read_digits n out
unfolding digits
read_digits-digits zero n out lt =
    ap (λ v. read_digits v out) (let same : 0 ≡ n = omega arith in same)
read_digits-digits (suc left) n out lt = elim (Bool-cases (ltb n 10)) [
  | inl e ↦
      let low : n < 10 = ground arith in
      rw e (digit 0 (n % 10) out (omega arith) ∙ ap (λ v. read_digits v out) (omega arith))
  | inr e ↦ rw e (
      read_digits-digits left (n / 10) ((b'0' + n % 10) ∷ out) (omega (arith, pow-suc 10 left))
      ∙ digit (n / 10) (n % 10) out (omega arith)
      ∙ ap (λ v. read_digits v out) (omega arith))
]

-- A number of 32 bits is read back from its text, up to a character that is not a digit.
pub read_digits-to_string :
    (n c : ℕ) (rest : List ℕ)
    → n < 2 ^ 32
    → is_digit c ≡ false
    → read_digits 0 (to_string n ++ c ∷ rest) ≡ (n, c ∷ rest)
unfolding to_string read_digits
read_digits-to_string n c rest lt other =
    ap (read_digits 0) (digits-append 10 n [] (c ∷ rest))
    ∙ read_digits-digits 10 n (c ∷ rest) (omega arith)
    ∙ rw other refl

-- The same at the end of a text.
pub read_digits-to_string_end : (n : ℕ) → n < 2 ^ 32 → read_digits 0 (to_string n) ≡ (n, [])
unfolding to_string read_digits
read_digits-to_string_end n lt = read_digits-digits 10 n [] (omega arith)
