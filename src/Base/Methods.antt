-- ===== src/Base/Methods.antt =====
-- A method of an object: a function from the object to the object and an outcome, so that what was
-- changed stays changed where the method throws.
use game_network.Base.Results.{Result, ok, throws, fault}

abbrev pub Method : Type 0 → Type 0 → Type 0
Method S A = S → S × Result A

-- `f` goes on from a value, and nothing does from a failure.
abbrev pub continue_with : {S A B : Type 0} → Result A → (A → Method S B) → Method S B
continue_with (ok a) f s = f a s
continue_with (throws e) f s = (s, throws e)
continue_with fault f s = (s, fault)

infixl 5 ◌>>=◌ ◌>>◌
abbrev pub ◌>>=◌ : {S A B : Type 0} → Method S A → (A → Method S B) → Method S B
◌>>=◌ m f s = continue_with (m s).1 f (m s).0

abbrev pub ◌>>◌ : {S B : Type 0} → Method S (Unit {0}) → Method S B → Method S B
m >> k = m >>= λ _. k

abbrev pub lift : {S A : Type 0} → Result A → Method S A
lift r s = (s, r)

abbrev pub modify : {S : Type 0} → (S → S) → Method S (Unit {0})
modify f s = (f s, ok tt)

abbrev pub get : {S A : Type 0} → (S → A) → Method S A
get f s = (s, ok (f s))

-- Where the object has `P`, the method leaves it with `Q`, whatever it comes to.
abbrev pub Leads : {S A : Type 0} → (S → Type 0) → (S → Type 0) → Method S A → Type 0
Leads {S} P Q m = (s : S) → P s → Q (m s).0

-- A value is gone on from, and a failure leaves the object as it is.
pub continue-Leads :
    {S A B : Type 0} (P Q : S → Type 0) (r : Result A) (f : A → Method S B) {s : S}
    → ((t : S) → P t → Q t)
    → ((a : A) → Leads P Q (f a))
    → P s
    → Q (continue_with r f s).0
continue-Leads P Q (ok a) f {s} k l p = l a s p
continue-Leads P Q (throws e) f {s} k l p = k s p
continue-Leads P Q fault f {s} k l p = k s p
