-- ===== src/Base/Int.antt =====
-- Values of the type `int`, of which the program uses -1, the sizes and the indices.
use Prim.Native.Nat.{ℕ, zero, suc, ◌-◌, ◌%◌, ◌^◌}
use mathlib.Core.Bool.{Bool, true, false}
use game_network.Base.Tests.{leb}

-- `negsuc n` is -(n + 1).
pub data ℤ : Type 0 where
  pos : ℕ → ℤ
  negsuc : ℕ → ℤ

-- `static_cast<unsigned>(i)`, of 32 bits.
abbrev pub to_unsigned : ℤ → ℕ
to_unsigned (pos n) = n % 2 ^ 32
to_unsigned (negsuc n) = (2 ^ 32 - suc n % 2 ^ 32) % 2 ^ 32

-- `n <= i` for an `n` that is not negative.
abbrev pub leb_ℤ : ℕ → ℤ → Bool
leb_ℤ n (pos m) = leb n m
leb_ℤ n (negsuc m) = false

-- `i <= n` for an `n` that is not negative.
abbrev pub ℤ_leb : ℤ → ℕ → Bool
ℤ_leb (pos m) n = leb m n
ℤ_leb (negsuc m) n = true

-- `++i` and `--i`.
abbrev pub add_one_ℤ : ℤ → ℤ
add_one_ℤ (pos n) = pos (suc n)
add_one_ℤ (negsuc zero) = pos 0
add_one_ℤ (negsuc (suc n)) = negsuc n

abbrev pub sub_one_ℤ : ℤ → ℤ
sub_one_ℤ (pos zero) = negsuc 0
sub_one_ℤ (pos (suc n)) = pos n
sub_one_ℤ (negsuc n) = negsuc (suc n)

-- `i > 0`, `i >= 0`, and the value of an `i` that passes.
abbrev pub is_positive : ℤ → Bool
is_positive (pos zero) = false
is_positive (pos (suc n)) = true
is_positive (negsuc n) = false

abbrev pub is_index : ℤ → Bool
is_index (pos n) = true
is_index (negsuc n) = false

-- A comparison whose outcome is stored in an `int`.
abbrev pub as_int : Bool → ℕ
as_int true = 1
as_int false = 0

abbrev pub to_index : ℤ → ℕ
to_index (pos n) = n
to_index (negsuc n) = 0
