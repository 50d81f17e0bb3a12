-- ===== src/Server/Queries.antt =====
-- The server's methods that ask for one client, the registration of the callback, and the destructor.
use game_network.Base.{
  arith, ℕ, zero, suc, ◌+◌, ◌≡◌, ◌∙◌, Bool, true, false, ◌&&◌, List, [], ◌∷◌, Option, none, some,
  get_elem?, get_or, length, if◌then◌else◌, ◌==◌, ltb, ap, Result, ok, fault,
}
use game_network.Base.Int.{ℤ}
use game_network.Base.Methods.{◌>>=◌, ◌>>◌, modify, get}
use game_network.Platform.{Host, Crypto, KeyExchange}
use game_network.Address.{same_address}
use game_network.Server.{
  Server, ConnectionInfo, M, max_clients, first_index, connection_at, challenge_at, no_connection,
}
use game_network.Server.Handlers.{kick_client}
use game_network.Server.Invariant.{IsValid}

-- An access to an array: outside of it, it is a fault.
abbrev pub entry_of : {A : Type 0} → Option A → Result A
entry_of none = fault
entry_of (some a) = ok a

-- `IsClientConnected`. The test of the index prints a message and does not return.
unfoldable pub is_client_connected : ℕ → Server → Result Bool
is_client_connected i s = entry_of (get_elem? s.connected i)

-- `GetClientConnectionInfo`
unfoldable pub get_client_connection_info : ℕ → Server → Result ConnectionInfo
get_client_connection_info i s = entry_of (get_elem? s.connections i)

abbrev pub same_key : List ℕ → List ℕ → Bool
same_key [] [] = true
same_key (x ∷ xs) (y ∷ ys) = (x == y) && same_key xs ys
same_key _ _ = false

-- `FindExistingConnectionIndex(const ConnectionInfo&)`
unfoldable pub find_existing_connection : ConnectionInfo → Server → ℤ
unfolding first_index
find_existing_connection e s = first_index max_clients 0 (λ i.
    get_or s.connected i false
    && (same_address (connection_at s i).client_address e.client_address
        && same_key (connection_at s i).shared_key e.shared_key))

-- `RegisterDebugCallback`, with whether there is a callback.
unfoldable pub register_callback : Bool → Server → Server
register_callback callback s = if callback then record s { has_callback = true } else s

module _ (h : Host) (c : Crypto) (x : KeyExchange) (now : ℕ) where
  -- The body of the destructor's loop.
  unfoldable pub drop_client : ℕ → M (Unit {0})
  unfolding kick_client
  drop_client i = do
    there ← get (λ s. get_or s.connected i false)
    a ← get (λ s. (connection_at s i).client_address)
    if there then kick_client h c x now a else modify (λ s. s)
    waiting ← get (λ s. get_or s.challenged i false)
    b ← get (λ s. (challenge_at s i).client_address)
    if waiting then kick_client h c x now b else modify (λ s. s)

  -- Its loop, from `i` with the rounds that are left.
  unfoldable pub drop_clients : ℕ → ℕ → M (Unit {0})
  unfolding drop_client
  drop_clients zero i = modify (λ s. s)
  drop_clients (suc left) i = do drop_client i; drop_clients left (i + 1)

  -- `~Server`, less the socket's closing.
  unfoldable pub destroy_server : M (Unit {0})
  unfolding drop_clients
  destroy_server = drop_clients max_clients 0

entry_of-get_elem? :
    {A : Type 0} (xs : List A) (i : ℕ) (d : A)
    → entry_of (get_elem? xs i) ≡ (if ltb i (length xs) then ok (get_or xs i d) else fault)
entry_of-get_elem? [] i d = ground arith
entry_of-get_elem? (x ∷ xs) zero d = ground arith
entry_of-get_elem? (x ∷ xs) (suc i) d =
    let less : ltb (suc i) (length (x ∷ xs)) ≡ ltb i (length xs) = ground arith in
    rw less (entry_of-get_elem? xs i d)

-- On a valid server, the queries for one client give its entries for an index below 4, and leave the
-- arrays for every other, also for those that their test reports.
pub queries_lem :
    (s : Server) (i : ℕ)
    → IsValid s
    → (is_client_connected i s ≡ (if ltb i 4 then ok (get_or s.connected i false) else fault))
      × (get_client_connection_info i s ≡ (if ltb i 4 then ok (connection_at s i) else fault))
unfolding is_client_connected get_client_connection_info
queries_lem s i v = (
  entry_of-get_elem? s.connected i false
      ∙ ap (λ n. if ltb i n then ok (get_or s.connected i false) else fault) v.connected_size,
  entry_of-get_elem? s.connections i (no_connection 0)
      ∙ ap (λ n. if ltb i n then ok (connection_at s i) else fault) v.connections_size,
)
