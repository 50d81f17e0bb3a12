-- ===== src/Server/Keyed.antt =====
-- That every challenge of the server's has a public key of the key exchange, and that the table of
-- the checksum is as the program keeps it: what the server needs to answer.
use game_network.Base.{
  ℕ, zero, suc, ◌≡◌, refl, sym, ap, subst, ◌∙◌, ◌<◌, arith, Bool, true, false, List, [], ◌∷◌,
  Option-cases, get_or, set, replicate, length, inl, inr, Bool-cases, ℕ_discrete,
}
use game_network.Base.Int.{is_positive, is_index}
use game_network.Platform.{Host, Crypto, KeyExchange}
use game_network.Address.{Address}
use game_network.Crc.{Statics}
use game_network.Crc.Table
use game_network.Crc.Table.{init_table-IsFilled}
use game_network.Server.{
  Server, ChallengeInfo, challenge_at, no_challenge, resolve, resolved, remove_client,
  find_existing_connection_index, find_existing_challenge_index,
}
use game_network.Server.Handlers.{new_server, put_challenge, start_task, promote}
use game_network.Server.Invariant.{IsValid, IsValid-Carries}
use game_network.Server.Preservation.{Carries, Fills}
use game_network.Server.Hearing.{new_server-IsValid}
use game_network.Server.Slots.{get_or-set_ne, get_or-set_self, get_or-set-false}

-- A new entry with the same key in its place changes no key.
set-server_public_key :
    (es : List ChallengeInfo) (i j : ℕ) (e d : ChallengeInfo)
    → e.server_public_key ≡ (get_or es i d).server_public_key
    → (get_or (set es i e) j d).server_public_key ≡ (get_or es j d).server_public_key
set-server_public_key [] i j e d same = refl
set-server_public_key (f ∷ es) zero zero e d same = same
set-server_public_key (f ∷ es) zero (suc j) e d same = refl
set-server_public_key (f ∷ es) (suc i) zero e d same = refl
set-server_public_key (f ∷ es) (suc i) (suc j) e d same = set-server_public_key es i j e d same

resolved-server_public_key :
    (e : ChallengeInfo) → (resolved e).server_public_key ≡ e.server_public_key
resolved-server_public_key e = elim (Option-cases e.shared_key_future) [
  | inl f ↦ rw f refl
  | inr (key, f) ↦ rw f refl
]

get_or-replicate : (n i : ℕ) → get_or (replicate n false) i false ≡ false
get_or-replicate zero i = refl
get_or-replicate (suc n) zero = refl
get_or-replicate (suc n) (suc i) = get_or-replicate n i

module _ (x : KeyExchange) where
  -- A challenge that is going on has a public key.
  abbrev pub HasKeys : List ChallengeInfo → List Bool → Type 0
  HasKeys es challenged =
      (i : ℕ)
      → get_or challenged i false ≡ true
      → (n : ℕ) × ((get_or es i (no_challenge 0)).server_public_key ≡ x.public_of n)

  pub record IsKeyed (s : Server) : Type 0 where
    pub shape : IsValid s
    pub table : Table.IsValid s.statics
    pub keys : HasKeys s.challenges s.challenged

  HasKeys-set_same :
      (es : List ChallengeInfo) (challenged : List Bool) (i : ℕ) (e : ChallengeInfo)
      → e.server_public_key ≡ (get_or es i (no_challenge 0)).server_public_key
      → HasKeys es challenged
      → HasKeys (set es i e) challenged
  HasKeys-set_same es challenged i e same keys j there =
      let (n, f) = keys j there in (n, set-server_public_key es i j e (no_challenge 0) same ∙ f)

  -- A slot that is given up needs no key.
  HasKeys-without :
      (es : List ChallengeInfo) (challenged : List Bool) (i : ℕ) (e : ChallengeInfo)
      → HasKeys es challenged
      → HasKeys (set es i e) (set challenged i false)
  HasKeys-without es challenged i e keys j there = elim (ℕ_discrete i j) [
    | yes same ↦ absurd (
        let free = get_or-set-false challenged i in
        clash (sym free ∙ ap (λ k. get_or (set challenged i false) k false) same ∙ there))
    | no other ↦
        let (n, f) = keys j (sym (get_or-set_ne challenged i j false false other) ∙ there) in
        (
          n,
          ap (λ (d : ChallengeInfo). d.server_public_key)
                (get_or-set_ne es i j e (no_challenge 0) other)
              ∙ f,
        )
  ]
    where
      clash : false ≡ true → ⊥
      clash e = cc e

  -- A new challenge has its key.
  HasKeys-with :
      (es : List ChallengeInfo) (challenged : List Bool) (i n : ℕ) (e : ChallengeInfo)
      → length es ≡ 4
      → i < 4
      → e.server_public_key ≡ x.public_of n
      → HasKeys es challenged
      → HasKeys (set es i e) (set challenged i true)
  HasKeys-with es challenged i n e size low key keys j there = elim (ℕ_discrete i j) [
    | yes same ↦ (
      n,
      ap (λ k. (get_or (set es i e) k (no_challenge 0)).server_public_key) (sym same)
          ∙ ap (λ (d : ChallengeInfo). d.server_public_key)
              (get_or-set_self es i e (no_challenge 0) (omega (arith, size)))
          ∙ key,
    )
    | no other ↦
        let (m, f) = keys j (sym (get_or-set_ne challenged i j true false other) ∙ there) in
        (
          m,
          ap (λ (d : ChallengeInfo). d.server_public_key)
                (get_or-set_ne es i j e (no_challenge 0) other)
              ∙ f,
        )
  ]

  Fills-IsValid : (s r : Statics) → Fills s r → Table.IsValid s → Table.IsValid r
  Fills-IsValid s r (inl e) v = subst Table.IsValid (sym e) v
  Fills-IsValid s r (inr e) v = subst Table.IsValid (sym e) (init_table-IsFilled s v).0

module _ (h : Host) (c : Crypto) (x : KeyExchange) (now : ℕ) where
  shape-Carries : Carries h c x now IsValid
  shape-Carries = IsValid-Carries h c x now

  remove_client-keys :
      (s : Server) (a : Address)
      → IsKeyed x s
      → HasKeys x (remove_client now a s).challenges (remove_client now a s).challenged
  unfolding remove_client
  remove_client-keys s a p = elim (Bool-cases (is_positive (find_existing_connection_index a s))) [
    | inl e ↦ rw e p.keys
    | inr e ↦ elim (Bool-cases (is_index (find_existing_challenge_index a s))) [
      | inl f ↦ rw (e, f) (HasKeys-without x s.challenges s.challenged 1 (no_challenge now) p.keys)
      | inr f ↦ rw (e, f) p.keys
    ]
  ]

  remove_client-table :
      (s : Server) (a : Address) → IsKeyed x s → Table.IsValid (remove_client now a s).statics
  unfolding remove_client
  remove_client-table s a p = elim (Bool-cases (is_positive (find_existing_connection_index a s))) [
    | inl e ↦ rw e p.table
    | inr e ↦ elim (Bool-cases (is_index (find_existing_challenge_index a s))) [
      | inl f ↦ rw (e, f) p.table
      | inr f ↦ rw (e, f) p.table
    ]
  ]

  pub IsKeyed-Carries : Carries h c x now (IsKeyed x)
  unfolding put_challenge start_task promote resolve remove_client
  IsKeyed-Carries = record {
    under_statics = λ s r e p. record {
      shape = shape-Carries.under_statics s r e p.shape;
      table = Fills-IsValid x s.statics r e p.table;
      keys = p.keys;
    };
    under_sent = λ s out p. record {
      shape = shape-Carries.under_sent s out p.shape;
      table = p.table;
      keys = p.keys;
    };
    under_callback = λ s b p. record {
      shape = shape-Carries.under_callback s b p.shape;
      table = p.table;
      keys = p.keys;
    };
    under_connection = λ s i e p. record {
      shape = shape-Carries.under_connection s i e p.shape;
      table = p.table;
      keys = p.keys;
    };
    under_resolve = λ s i p. record {
      shape = shape-Carries.under_resolve s i p.shape;
      table = p.table;
      keys =
          HasKeys-set_same x s.challenges s.challenged i _
            (resolved-server_public_key (challenge_at s i)) p.keys;
    };
    under_put = λ s sender key p. record {
      shape = shape-Carries.under_put s sender key p.shape;
      table = p.table;
      keys =
          HasKeys-with x s.challenges s.challenged 1 s.entropy _ p.shape.challenges_size
            (omega arith) refl p.keys;
    };
    under_start = λ s i p. record {
      shape = shape-Carries.under_start s i p.shape;
      table = p.table;
      keys = HasKeys-set_same x s.challenges s.challenged i _ refl p.keys;
    };
    under_promote = λ s i n free p. record {
      shape = shape-Carries.under_promote s i n free p.shape;
      table = p.table;
      keys = HasKeys-without x s.challenges s.challenged i (no_challenge now) p.keys;
    };
    under_remove = λ s a p. record {
      shape = shape-Carries.under_remove s a p.shape;
      table = remove_client-table s a p;
      keys = remove_client-keys s a p;
    };
  }

  pub new_server-IsKeyed :
      (statics : Statics) (entropy : ℕ)
      → Table.IsValid statics
      → IsKeyed x (new_server h c x now statics entropy)
  unfolding new_server
  new_server-IsKeyed statics entropy v = record {
    shape = new_server-IsValid h c x now statics entropy;
    table = v;
    keys = λ i taken.
        absurd (
          let free = get_or-replicate 4 i in let both : false ≡ true = sym free ∙ taken in cc both);
  }
