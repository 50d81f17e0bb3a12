-- ===== src/Server/Slots.antt =====
-- Searches over the slots, and entries of a table that are written or not.
use game_network.Base.{
  ℕ, zero, suc, ◌+◌, ◌≤◌, ◌<◌, ◌≡◌, refl, sym, ap, ◌∙◌, arith, Bool, true, false, List, [], ◌∷◌,
  get_or, set, length, if◌then◌else◌, ◌⊎◌, inl, inr, ◌≢◌, ℕ_discrete,
}
use game_network.Base.Int.{ℤ, pos, negsuc}
use game_network.Server.{first_index}

-- Nothing before `k` passes, from `i` on.
abbrev pub NoneBefore : ℕ → ℕ → (ℕ → Bool) → Type 0
NoneBefore i k test = (j : ℕ) → i ≤ j → j < k → test j ≡ false

-- A search over the slots returns the first that passes, or -1 where none does: it is an index in
-- the range, its slot passes, and no slot before it passes; or no slot of the range passes.
pub first_index-first :
    (left i : ℕ) (test : ℕ → Bool)
    → ((k : ℕ) × (first_index left i test ≡ pos k)
        × (i ≤ k)
        × (k < i + left)
        × (test k ≡ true)
        × NoneBefore i k test)
      ⊎ ((first_index left i test ≡ negsuc 0) × NoneBefore i (i + left) test)
unfolding first_index
first_index-first zero i test = inr (refl, λ j p q. absurd (omega arith))
first_index-first (suc left) i test = at_slot (test i) refl (first_index-first left (i + 1) test)
  where
    rest : ℤ
    rest = first_index left (i + 1) test

    earlier : {k : ℕ} → test i ≡ false → NoneBefore (i + 1) k test → NoneBefore i k test
    earlier e below j p q = elim (ℕ_discrete i j) [
      | yes same ↦ ap test (sym same) ∙ e
      | no other ↦ below j (omega arith) q
    ]

    at_slot :
        (b : Bool)
        → test i ≡ b
        → ((k : ℕ) × (rest ≡ pos k)
            × (i + 1 ≤ k)
            × (k < i + 1 + left)
            × (test k ≡ true)
            × NoneBefore (i + 1) k test)
          ⊎ ((rest ≡ negsuc 0) × NoneBefore (i + 1) (i + 1 + left) test)
        → ((k : ℕ) × ((if b then pos i else rest) ≡ pos k)
            × (i ≤ k)
            × (k < i + suc left)
            × (test k ≡ true)
            × NoneBefore i k test)
          ⊎ (((if b then pos i else rest) ≡ negsuc 0) × NoneBefore i (i + suc left) test)
    at_slot true e r = inl (i, refl, omega arith, omega arith, e, λ j p q. absurd (omega arith))
    at_slot false e (inl (k, found, p, q, t, below)) =
        inl (k, found, omega arith, omega arith, t, earlier e below)
    at_slot false e (inr (found, below)) =
        inr (found, λ j p q. earlier {k = i + 1 + left} e below j p (omega arith))

-- An entry of a table that is not written.
pub get_or-set_ne :
    {A : Type 0} (xs : List A) (i j : ℕ) (v d : A) → i ≢ j → get_or (set xs i v) j d ≡ get_or xs j d
get_or-set_ne [] i j v d h = refl
get_or-set_ne (x ∷ xs) zero zero v d h = absurd (h refl)
get_or-set_ne (x ∷ xs) zero (suc j) v d h = refl
get_or-set_ne (x ∷ xs) (suc i) zero v d h = refl
get_or-set_ne (x ∷ xs) (suc i) (suc j) v d h = get_or-set_ne xs i j v d (λ e. h (ap suc e))

pub get_or-set-false : (xs : List Bool) (i : ℕ) → get_or (set xs i false) i false ≡ false
get_or-set-false [] i = refl
get_or-set-false (x ∷ xs) zero = refl
get_or-set-false (x ∷ xs) (suc i) = get_or-set-false xs i

pub get_or-set_self :
    {A : Type 0} (xs : List A) (i : ℕ) (v d : A) → i < length xs → get_or (set xs i v) i d ≡ v
get_or-set_self [] i v d h = absurd (omega arith)
get_or-set_self (x ∷ xs) zero v d h = refl
get_or-set_self (x ∷ xs) (suc i) v d h = get_or-set_self xs i v d (omega arith)
