-- ===== src/Base/Outcomes.antt =====
-- What is known of a value, where there is one, and that there is no outcome but a value or an
-- exception that `catch(std::exception&)` catches.
use game_network.Base.Results.{Result, ok, throws, fault, out_of_range, exception_pointer, ◌>>=◌}
use game_network.Base.Methods.{Method, continue_with}

abbrev pub Yields : {A : Type 0} → (A → Type 0) → Result A → Type 0
Yields P (ok a) = P a
Yields P (throws e) = Unit {0}
Yields P fault = Unit {0}

abbrev pub Ends : {A : Type 0} → (A → Type 0) → Result A → Type 0
Ends Known (throws out_of_range) = Unit {0}
Ends Known (throws exception_pointer) = ⊥
Ends Known fault = ⊥
Ends Known (ok value) = Known value

module _ {A B : Type 0} where
  pub bind-Yields :
      (Q : B → Type 0) (r : Result A) (f : A → Result B)
      → ((a : A) → Yields Q (f a))
      → Yields Q (r >>= f)
  bind-Yields Q (ok a) f k = k a
  bind-Yields Q (throws e) f k = tt
  bind-Yields Q fault f k = tt

  pub bind-Ends :
      (Before : A → Type 0) (Behind : B → Type 0) (result : Result A) (next : A → Result B)
      → Ends Before result
      → ((value : A) → Before value → Ends Behind (next value))
      → Ends Behind (result >>= next)
  bind-Ends Before Behind (ok value) next known k = k value known
  bind-Ends Before Behind (throws out_of_range) next known k = tt
  bind-Ends Before Behind (throws exception_pointer) next known k = known
  bind-Ends Before Behind fault next known k = known

-- What a value is known to be is known where it is gone on from.
pub continue_yielded-Leads :
    {S A B : Type 0} (P Q : S → Type 0) (R : A → Type 0) (r : Result A) (f : A → Method S B) {s : S}
    → Yields R r
    → ((t : S) → P t → Q t)
    → ((a : A) → R a → Q (f a s).0)
    → P s
    → Q (continue_with r f s).0
continue_yielded-Leads P Q R (ok a) f {s} y k l p = l a y
continue_yielded-Leads P Q R (throws e) f {s} y k l p = k s p
continue_yielded-Leads P Q R fault f {s} y k l p = k s p

-- A method that goes on from a value.
pub continue-Ends :
    {S A B : Type 0} (Before : A → Type 0) (Behind : B → Type 0) (result : Result A)
    (next : A → Method S B) (s : S)
    → Ends Before result
    → ((value : A) → Before value → Ends Behind (next value s).1)
    → Ends Behind (continue_with result next s).1
continue-Ends Before Behind (ok value) next s known k = k value known
continue-Ends Before Behind (throws out_of_range) next s known k = tt
continue-Ends Before Behind (throws exception_pointer) next s known k = known
continue-Ends Before Behind fault next s known k = known
