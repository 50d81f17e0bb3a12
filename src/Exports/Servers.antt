-- ===== src/Exports/Servers.antt =====
-- The exported functions of Server.cpp.
use game_network.Base.{
  ℕ, Bool, true, false, ◌≡◌, refl, ap, ◌∙◌, List, [], ◌∷◌, Option, some, Result, ok,
}
use game_network.Base.Int.{ℤ, negsuc}
use game_network.Platform.{Host, Crypto, KeyExchange}
use game_network.Address.{Address}
use game_network.Crc.{Statics}
use game_network.Server.{Server, lobby}
use game_network.Server.Handlers.{
  new_server, propagate_game_data, switch_to_game, switch_to_lobby, get_connected_client_count,
}
use game_network.Server.Listen.{Heard, listen}
use game_network.Server.Queries.{register_callback, destroy_server}
use game_network.Server.Invariant.{IsValid, IsValid-Carries, IsValid-Switches}
use game_network.Server.Preservation.{Carries, Switches, propagate_loop-Keeps}
use game_network.Server.Hearing.{listen-Keeps, switch_to_game-Keeps, new_server-IsValid}
use game_network.Exports.{at_object, ask_object}

-- `Internal_ServerGetConnectedClientCount`
abbrev pub server_get_connected_client_count : Option Server → ℤ
server_get_connected_client_count = ask_object (negsuc 0) get_connected_client_count

-- `Internal_ServerSwitchToLobby`
abbrev pub server_switch_to_lobby : Option Server → Option Server × Unit {0}
server_switch_to_lobby = at_object tt (λ s. (switch_to_lobby s, tt))

-- `Internal_ServerRegisterClientConnectCallback`
abbrev pub server_register_callback : Bool → Option Server → Option Server × Unit {0}
server_register_callback callback = at_object tt (λ s. (register_callback callback s, tt))

module _ (h : Host) (c : Crypto) (x : KeyExchange) (now : ℕ) where
  -- `Internal_ServerCreate`
  abbrev pub server_create : Statics → ℕ → Option Server
  server_create statics entropy = some (new_server h c x now statics entropy)

  -- `Internal_ServerDestroy`, with the object as its destructor leaves it.
  abbrev pub server_destroy : Option Server → Option Server × Result (Unit {0})
  server_destroy = at_object (ok tt) (destroy_server h c x now)

  -- `Internal_ServerListen`
  abbrev pub server_listen :
      ℕ → Option (Address × List ℕ) → Option Server → Option Server × Result Heard
  server_listen p_size datagram = at_object (ok (negsuc 0, [])) (listen h c x now p_size datagram)

  -- `Internal_ServerSwitchToGame`
  abbrev pub server_switch_to_game : Option Server → Option Server × Unit {0}
  server_switch_to_game = at_object tt (λ s. (switch_to_game h c x now s, tt))

  -- `Internal_ServerPropagateGameData`
  abbrev pub server_propagate_game_data :
      List ℕ → ℕ → Option Server → Option Server × Result (Unit {0})
  server_propagate_game_data bytes size =
      at_object (ok tt) (propagate_game_data h c x now bytes size)

module _ (h : Host) (c : Crypto) (x : KeyExchange) where
  -- A call through the exports, with the time and with what the world answers.
  pub data Request : Type 0 where
    to_listen : ℕ → ℕ → Option (Address × List ℕ) → Request
    to_lobby : Request
    to_game : ℕ → Request
    to_register : Bool → Request
    to_propagate : ℕ → List ℕ → ℕ → Request

  -- The calls that leave a server in the lobby.
  abbrev pub IsLobby : Request → Type 0
  IsLobby (to_game now) = ⊥
  IsLobby _ = Unit {0}

  abbrev pub AreLobby : List Request → Type 0
  AreLobby [] = Unit {0}
  AreLobby (r ∷ rs) = IsLobby r × AreLobby rs

  unfoldable pub perform : Request → Option Server → Option Server
  unfolding listen switch_to_game propagate_game_data register_callback
  perform (to_listen now p_size datagram) o = (server_listen h c x now p_size datagram o).0
  perform to_lobby o = (server_switch_to_lobby o).0
  perform (to_game now) o = (server_switch_to_game h c x now o).0
  perform (to_register callback) o = (server_register_callback callback o).0
  perform (to_propagate now bytes size) o = (server_propagate_game_data h c x now bytes size o).0

  unfoldable pub perform_all : List Request → Option Server → Option Server
  unfolding perform
  perform_all [] o = o
  perform_all (r ∷ rs) o = perform_all rs (perform r o)

  module _ (P : Server → Type 0) (carries : (now : ℕ) → Carries h c x now P) where
    register-Keeps : (callback : Bool) (s : Server) → P s → P (register_callback callback s)
    unfolding register_callback
    register-Keeps true s p = (carries 0).under_callback s true p
    register-Keeps false s p = p

    propagate-Keeps :
        (now : ℕ) (bytes : List ℕ) (size : ℕ) (s : Server)
        → P s
        → P (propagate_game_data h c x now bytes size s).0
    unfolding propagate_game_data
    propagate-Keeps now bytes size = propagate_loop-Keeps h c x now P (carries now) 3 1 bytes size

    -- A call that does not switch to the game.
    perform_lobby-Keeps :
        (r : Request) (s : Server)
        → IsLobby r
        → ((t : Server) → P t → P (switch_to_lobby t))
        → P s
        → (t : Server) × (perform r (some s) ≡ some t) × P t
    unfolding perform
    perform_lobby-Keeps (to_listen now p_size datagram) s l k p =
        (_, refl, listen-Keeps h c x now P (carries now) p_size datagram s p)
    perform_lobby-Keeps to_lobby s l k p = (_, refl, k s p)
    perform_lobby-Keeps (to_game now) s l k p = absurd l
    perform_lobby-Keeps (to_register callback) s l k p = (_, refl, register-Keeps callback s p)
    perform_lobby-Keeps (to_propagate now bytes size) s l k p =
        (_, refl, propagate-Keeps now bytes size s p)

    -- Such calls in any order keep what each change of the server keeps.
    pub perform_lobbies-Keeps :
        (rs : List Request) (s : Server)
        → AreLobby rs
        → ((t : Server) → P t → P (switch_to_lobby t))
        → P s
        → (t : Server) × (perform_all rs (some s) ≡ some t) × P t
    unfolding perform_all
    perform_lobbies-Keeps [] s l k p = (s, refl, p)
    perform_lobbies-Keeps (r ∷ rs) s l k p =
        let (t, e, q) = perform_lobby-Keeps r s l.0 k p in
        let (u, f, w) = perform_lobbies-Keeps rs t l.1 k q in (u, ap (perform_all rs) e ∙ f, w)

    perform-Keeps :
        Switches P
        → (r : Request) (s : Server) → P s
        → (t : Server) × (perform r (some s) ≡ some t) × P t
    unfolding perform
    perform-Keeps k (to_game now) s p =
        (_, refl, switch_to_game-Keeps h c x now P (carries now) k s p)
    perform-Keeps k (to_listen now p_size datagram) s p =
        perform_lobby-Keeps (to_listen now p_size datagram) s tt (λ t. k t lobby) p
    perform-Keeps k to_lobby s p = perform_lobby-Keeps to_lobby s tt (λ t. k t lobby) p
    perform-Keeps k (to_register callback) s p =
        perform_lobby-Keeps (to_register callback) s tt (λ t. k t lobby) p
    perform-Keeps k (to_propagate now bytes size) s p =
        perform_lobby-Keeps (to_propagate now bytes size) s tt (λ t. k t lobby) p

    -- Calls in any order keep what each change of the server keeps.
    pub perform_all-Keeps :
        Switches P
        → (rs : List Request) (s : Server) → P s
        → (t : Server) × (perform_all rs (some s) ≡ some t) × P t
    unfolding perform_all
    perform_all-Keeps k [] s p = (s, refl, p)
    perform_all-Keeps k (r ∷ rs) s p =
        let (t, e, q) = perform-Keeps k r s p in
        let (u, f, w) = perform_all-Keeps k rs t q in (u, ap (perform_all rs) e ∙ f, w)

  -- A server that is created and used through the exports, whatever datagrams arrive and in whatever
  -- order, keeps four entries in each table and its host connected.
  pub exports-IsValid :
      (rs : List Request) (now : ℕ) (statics : Statics) (entropy : ℕ)
      → (t : Server) × (perform_all rs (server_create h c x now statics entropy) ≡ some t)
        × IsValid t
  exports-IsValid rs now statics entropy =
      perform_all-Keeps IsValid (IsValid-Carries h c x) IsValid-Switches rs
        (new_server h c x now statics entropy) (new_server-IsValid h c x now statics entropy)
