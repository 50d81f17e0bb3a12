-- ===== src/Server/Invariant.antt =====
-- The shape of the server's tables, which every method keeps.
use game_network.Base.{
  ℕ, zero, suc, ◌≡◌, refl, ◌∙◌, Bool, true, false, List, [], ◌∷◌, get_or, set, length, length-set,
  Bool-cases, inl, inr,
}
use game_network.Base.Int.{sub_one_ℤ, is_positive, is_index}
use game_network.Address.{Address}
use game_network.Platform.{Host, Crypto, KeyExchange}
use game_network.Server.Handlers.{put_challenge, start_task, promote}
use game_network.Server.Preservation.{Carries, Switches}
use game_network.Server.{
  Server, resolve, remove_client, find_existing_connection_index, find_existing_challenge_index,
  no_connection, no_challenge,
}

-- Each array has MAX_CLIENTS entries, and the host's own slot, the first, is connected.
pub record IsValid (s : Server) : Type 0 where
  pub challenges_size : length s.challenges ≡ 4
  pub connections_size : length s.connections ≡ 4
  pub connected_size : length s.connected ≡ 4
  pub challenged_size : length s.challenged ≡ 4
  pub host_connected : get_or s.connected 0 false ≡ true

-- A slot that is not the first is written, or the first is set to true.
pub get_or-set_zero :
    (xs : List Bool) (i : ℕ) → get_or xs 0 false ≡ true → get_or (set xs i true) 0 false ≡ true
get_or-set_zero [] i e = e
get_or-set_zero (x ∷ xs) zero e = refl
get_or-set_zero (x ∷ xs) (suc i) e = e

pub get_or-set_later :
    (xs : List Bool) (i : ℕ) (v : Bool)
    → get_or xs 0 false ≡ true
    → get_or (set xs (suc i) v) 0 false ≡ true
get_or-set_later [] i v e = e
get_or-set_later (x ∷ xs) i v e = e

-- A step that replaces arrays by others of their size, and keeps the host's slot.
pub resized :
    {s : Server} (t : Server)
    → IsValid s
    → length t.challenges ≡ length s.challenges
    → length t.connections ≡ length s.connections
    → length t.connected ≡ length s.connected
    → length t.challenged ≡ length s.challenged
    → get_or t.connected 0 false ≡ true
    → IsValid t
resized t v p q r u e = record {
  challenges_size = p ∙ v.challenges_size;
  connections_size = q ∙ v.connections_size;
  connected_size = r ∙ v.connected_size;
  challenged_size = u ∙ v.challenged_size;
  host_connected = e;
}

pub resolve-Keeps : (i : ℕ) {s : Server} → IsValid s → IsValid (resolve i s)
unfolding resolve
resolve-Keeps i {s} v =
    resized (resolve i s) v (length-set s.challenges i _) refl refl refl v.host_connected

pub remove_client-Keeps :
    (now : ℕ) (a : Address) {s : Server} → IsValid s → IsValid (remove_client now a s)
unfolding remove_client
remove_client-Keeps now a {s} v =
    elim (Bool-cases (is_positive (find_existing_connection_index a s))) [
      | inl e ↦ rw e (
          resized
            (record s {
              connected = set s.connected 1 false;
              connections = set s.connections 1 (no_connection now);
              num_connections = sub_one_ℤ s.num_connections;
            })
            v refl (length-set s.connections 1 _) (length-set s.connected 1 false) refl
            (get_or-set_later s.connected 0 false v.host_connected))
      | inr e ↦ elim (Bool-cases (is_index (find_existing_challenge_index a s))) [
        | inl f ↦
            rw (e, f)
              (resized
                (record s {
                  challenged = set s.challenged 1 false;
                  challenges = set s.challenges 1 (no_challenge now);
                })
                v (length-set s.challenges 1 _) refl refl (length-set s.challenged 1 false)
                v.host_connected)
        | inr f ↦ rw (e, f) v
      ]
    ]

pub IsValid-Switches : Switches IsValid
IsValid-Switches s state v = resized _ v refl refl refl refl v.host_connected

module _ (h : Host) (c : Crypto) (x : KeyExchange) (now : ℕ) where
  pub IsValid-Carries : Carries h c x now IsValid
  unfolding put_challenge start_task promote
  IsValid-Carries = record {
    under_statics = λ s r e v. resized _ v refl refl refl refl v.host_connected;
    under_sent = λ s out v. resized _ v refl refl refl refl v.host_connected;
    under_callback = λ s b v. resized _ v refl refl refl refl v.host_connected;
    under_connection =
        λ s i e v. resized _ v refl (length-set s.connections i e) refl refl v.host_connected;
    under_resolve = λ s i v. resolve-Keeps i v;
    under_put = λ s sender key v.
        resized _ v (length-set s.challenges 1 _) refl refl (length-set s.challenged 1 true)
          v.host_connected;
    under_start =
        λ s i v. resized _ v (length-set s.challenges i _) refl refl refl v.host_connected;
    under_promote = λ s i n free v.
        resized _ v (length-set s.challenges i _) (length-set s.connections n _)
          (length-set s.connected n true) (length-set s.challenged i false)
          (get_or-set_zero s.connected n v.host_connected);
    under_remove = λ s a v. remove_client-Keeps now a v;
  }
