-- ===== src/Base/Results.antt =====
-- Outcomes of C++ code: a value, an exception, or undefined behaviour.
use mathlib.Core.Option.{Option, none, some}

-- `throw std::out_of_range(…)`, and `throw new std::exception(…)`, which throws a pointer.
pub data Error : Type 0 where
  out_of_range exception_pointer : Error

-- `fault` is an access outside of the memory that was allocated.
pub data Result {ℓ} (A : Type ℓ) : Type ℓ where
  ok : A → Result A
  throws : Error → Result A
  fault : Result A

infixl 5 ◌>>=◌ ◌>>◌
abbrev pub ◌>>=◌ {ℓ κ} : {A : Type ℓ} {B : Type κ} → Result A → (A → Result B) → Result B
ok a >>= f = f a
throws e >>= f = throws e
fault >>= f = fault

abbrev pub ◌>>◌ {ℓ κ} : {A : Type ℓ} {B : Type κ} → Result A → Result B → Result B
m >> k = m >>= λ _. k

-- A memory access that leaves the allocation.
abbrev pub accessed {ℓ} : {A : Type ℓ} → Option A → Result A
accessed none = fault
accessed (some a) = ok a
