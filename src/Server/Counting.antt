-- ===== src/Server/Counting.antt =====
-- The number of connections that the server reports, against its table.
use game_network.Base.{
  arith, ℕ, zero, suc, ◌+◌, ◌≤◌, ◌<◌, ◌≡◌, refl, Bool, true, false, List, [], ◌∷◌, get_or, set,
  length, if◌then◌else◌, Bool-cases, inl, inr,
}
use game_network.Base.Int.{ℤ, pos, negsuc, ℤ_leb, add_one_ℤ, sub_one_ℤ, is_positive, is_index}
use game_network.Platform.{Host, Crypto, KeyExchange}
use game_network.Address.{Address}
use game_network.Crc.{Statics}
use game_network.Server.{
  Server, is_false, resolve, remove_client, find_free_connection_index,
  find_existing_connection_index, find_existing_challenge_index,
}
use game_network.Server.Handlers.{new_server, put_challenge, start_task, promote}
use game_network.Server.Invariant.{IsValid, IsValid-Carries, IsValid-Switches}
use game_network.Server.Preservation.{Carries, Switches}
use game_network.Server.Hearing.{new_server-IsValid}
use game_network.Server.Joining.{found}

-- How many slots are taken.
abbrev pub taken : List Bool → ℕ
taken [] = 0
taken (b ∷ bs) = if b then taken bs + 1 else taken bs

taken-set-true :
    (bs : List Bool) (i : ℕ)
    → get_or bs i false ≡ false
    → i < length bs
    → taken (set bs i true) ≡ taken bs + 1
taken-set-true [] i e lt = absurd (omega arith)
taken-set-true (b ∷ bs) zero e lt = ground arith
taken-set-true (b ∷ bs) (suc i) e lt = ground (arith, taken-set-true bs i)

taken-set-false : (bs : List Bool) (i : ℕ) → taken bs ≤ taken (set bs i false) + 1
taken-set-false [] i = omega arith
taken-set-false (b ∷ bs) zero = ground arith
taken-set-false (b ∷ bs) (suc i) = ground (arith, taken-set-false bs i)

pub taken-le-length : (bs : List Bool) → taken bs ≤ length bs
taken-le-length [] = omega arith
taken-le-length (b ∷ bs) = ground (arith, taken-le-length bs)

add_one-le : (z : ℤ) (m n : ℕ) → ℤ_leb z m ≡ true → n ≡ m + 1 → ℤ_leb (add_one_ℤ z) n ≡ true
add_one-le (pos k) m n e f = ground arith
add_one-le (negsuc zero) m n e f = ground arith
add_one-le (negsuc (suc k)) m n e f = refl

sub_one-le : (z : ℤ) (m n : ℕ) → ℤ_leb z m ≡ true → m ≤ n + 1 → ℤ_leb (sub_one_ℤ z) n ≡ true
sub_one-le (pos zero) m n e f = refl
sub_one-le (pos (suc k)) m n e f = ground arith
sub_one-le (negsuc k) m n e f = refl

-- No more connections are reported than slots are taken.
pub record IsCounted (s : Server) : Type 0 where
  pub shape : IsValid s
  pub at_most : ℤ_leb s.num_connections (taken s.connected) ≡ true

ℤ_leb_trans : (z : ℤ) (m n : ℕ) → ℤ_leb z m ≡ true → m ≤ n → ℤ_leb z n ≡ true
ℤ_leb_trans (pos k) m n e le = ground arith
ℤ_leb_trans (negsuc k) m n e le = refl

pub IsCounted-at_most : (s : Server) → IsCounted s → ℤ_leb s.num_connections 4 ≡ true
IsCounted-at_most s p =
    ℤ_leb_trans s.num_connections (taken s.connected) 4 p.at_most
      (omega (arith, taken-le-length s.connected, p.shape.connected_size))

pub free_slot :
    (s : Server) (n : ℕ)
    → find_free_connection_index s ≡ pos n
    → (n < 4) × (get_or s.connected n false ≡ false)
unfolding find_free_connection_index
free_slot s n e =
    let (low, free) = found (λ i. is_false (get_or s.connected i false)) n e in (low, ground arith)

pub IsCounted-Switches : Switches IsCounted
IsCounted-Switches s state p = record {
  shape = IsValid-Switches s state p.shape;
  at_most = p.at_most;
}

module _ (h : Host) (c : Crypto) (x : KeyExchange) (now : ℕ) where
  shape-Carries : Carries h c x now IsValid
  shape-Carries = IsValid-Carries h c x now

  promote-at_most :
      (s : Server) (i n : ℕ)
      → find_free_connection_index s ≡ pos n
      → IsCounted s
      → ℤ_leb (promote h c x now i n s).num_connections (taken (promote h c x now i n s).connected)
        ≡ true
  unfolding promote
  promote-at_most s i n free p =
      let (low, empty) = free_slot s n free in
      add_one-le s.num_connections (taken s.connected) (taken (set s.connected n true)) p.at_most
        (taken-set-true s.connected n empty (omega (arith, p.shape.connected_size)))

  remove_client-at_most :
      (s : Server) (a : Address)
      → IsCounted s
      → ℤ_leb (remove_client now a s).num_connections (taken (remove_client now a s).connected)
        ≡ true
  unfolding remove_client
  remove_client-at_most s a p =
      elim (Bool-cases (is_positive (find_existing_connection_index a s))) [
        | inl e ↦ rw e (
            sub_one-le s.num_connections (taken s.connected) (taken (set s.connected 1 false))
              p.at_most (taken-set-false s.connected 1))
        | inr e ↦ elim (Bool-cases (is_index (find_existing_challenge_index a s))) [
          | inl f ↦ rw (e, f) p.at_most
          | inr f ↦ rw (e, f) p.at_most
        ]
      ]

  pub IsCounted-Carries : Carries h c x now IsCounted
  unfolding put_challenge start_task resolve
  IsCounted-Carries = record {
    under_statics = λ s r e p. record {
      shape = shape-Carries.under_statics s r e p.shape;
      at_most = p.at_most;
    };
    under_sent =
        λ s out p. record { shape = shape-Carries.under_sent s out p.shape; at_most = p.at_most };
    under_callback =
        λ s b p. record { shape = shape-Carries.under_callback s b p.shape; at_most = p.at_most };
    under_connection = λ s i e p. record {
      shape = shape-Carries.under_connection s i e p.shape;
      at_most = p.at_most;
    };
    under_resolve =
        λ s i p. record { shape = shape-Carries.under_resolve s i p.shape; at_most = p.at_most };
    under_put = λ s sender key p. record {
      shape = shape-Carries.under_put s sender key p.shape;
      at_most = p.at_most;
    };
    under_start =
        λ s i p. record { shape = shape-Carries.under_start s i p.shape; at_most = p.at_most };
    under_promote = λ s i n free p. record {
      shape = shape-Carries.under_promote s i n free p.shape;
      at_most = promote-at_most s i n free p;
    };
    under_remove = λ s a p. record {
      shape = shape-Carries.under_remove s a p.shape;
      at_most = remove_client-at_most s a p;
    };
  }

  pub new_server-IsCounted :
      (statics : Statics) (entropy : ℕ) → IsCounted (new_server h c x now statics entropy)
  unfolding new_server
  new_server-IsCounted statics entropy = record {
    shape = new_server-IsValid h c x now statics entropy;
    at_most = refl;
  }
