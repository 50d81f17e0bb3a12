-- ===== src/Exports/Lobby.antt =====
-- The exported functions of Server.cpp in the lobby: a server that Internal_ServerSwitchToGame is not
-- called for.
use game_network.Base.{ℕ, ◌≡◌, refl, ap, ◌∙◌, true, List, Option, ok, Bool-cases, inl, inr}
use game_network.Base.Int.{is_positive, is_index}
use game_network.Platform.{Host, Crypto, KeyExchange, KeySizes}
use game_network.Address.{Address}
use game_network.Crc.{Statics}
use game_network.Crc.Table
use game_network.Server.{
  Server, lobby, resolve, remove_client, find_existing_connection_index,
  find_existing_challenge_index,
}
use game_network.Server.Handlers.{new_server, put_challenge, start_task, promote}
use game_network.Server.Listen.{in_lobby, nothing_heard, listen}
use game_network.Server.Invariant.{IsValid-Switches}
use game_network.Server.Preservation.{Carries}
use game_network.Server.Keyed.{IsKeyed, IsKeyed-Carries, new_server-IsKeyed}
use game_network.Packet.Arriving.{Fits}
use game_network.Server.Surviving.{listen-survives}
use game_network.Exports.Servers.{
  Request, AreLobby, perform_all, perform_lobbies-Keeps, server_create, server_listen,
}

-- A server that answers: in the lobby, with what it needs to answer.
abbrev pub IsReady : KeyExchange → Server → Type 0
IsReady x s = IsKeyed x s × (in_lobby s ≡ true)

module _ (h : Host) (c : Crypto) (x : KeyExchange) (now : ℕ) where
  keyed : Carries h c x now (IsKeyed x)
  keyed = IsKeyed-Carries h c x now

  remove_client-in_lobby :
      (s : Server) (a : Address) → in_lobby (remove_client now a s) ≡ in_lobby s
  unfolding remove_client
  remove_client-in_lobby s a =
      elim (Bool-cases (is_positive (find_existing_connection_index a s))) [
        | inl e ↦ rw e refl
        | inr e ↦ elim (Bool-cases (is_index (find_existing_challenge_index a s))) [
          | inl f ↦ rw (e, f) refl
          | inr f ↦ rw (e, f) refl
        ]
      ]

  pub IsReady-Carries : Carries h c x now (IsReady x)
  unfolding resolve put_challenge start_task promote
  IsReady-Carries = record {
    under_statics = λ s r e p. (keyed.under_statics s r e p.0, p.1);
    under_sent = λ s out p. (keyed.under_sent s out p.0, p.1);
    under_callback = λ s b p. (keyed.under_callback s b p.0, p.1);
    under_connection = λ s i e p. (keyed.under_connection s i e p.0, p.1);
    under_resolve = λ s i p. (keyed.under_resolve s i p.0, p.1);
    under_put = λ s sender key p. (keyed.under_put s sender key p.0, p.1);
    under_start = λ s i p. (keyed.under_start s i p.0, p.1);
    under_promote = λ s i n free p. (keyed.under_promote s i n free p.0, p.1);
    under_remove = λ s a p. (keyed.under_remove s a p.0, remove_client-in_lobby s a ∙ p.1);
  }

  pub new_server-IsReady :
      (statics : Statics) (entropy : ℕ)
      → Table.IsValid statics
      → IsReady x (new_server h c x now statics entropy)
  unfolding new_server
  new_server-IsReady statics entropy v = (new_server-IsKeyed h c x now statics entropy v, refl)

-- No datagram brings a server of the lobby down: after any calls of a created server but the switch
-- to the game, whatever arrived in them, Internal_ServerListen throws nothing, stays in its memory
-- and returns 0 for every datagram of at most 1024 bytes, and for none.
pub lobby-survives :
    (h : Host) (c : Crypto) (x : KeyExchange) (sizes : KeySizes c x) (rs : List (Request h c x))
    (now : ℕ) (statics : Statics) (entropy later p_size : ℕ) (datagram : Option (Address × List ℕ))
    → AreLobby h c x rs
    → Table.IsValid statics
    → Fits datagram
    → (server_listen h c x later p_size datagram
        (perform_all h c x rs (server_create h c x now statics entropy))).1
      ≡ ok nothing_heard
unfolding listen
lobby-survives h c x sizes rs now statics entropy later p_size datagram calm v fits =
    let (t, e, q) =
      perform_lobbies-Keeps h c x (IsReady x) (IsReady-Carries h c x) rs
        (new_server h c x now statics entropy) calm
        (λ s p. (
          record { shape = IsValid-Switches s lobby p.0.shape; table = p.0.table; keys = p.0.keys },
          refl,
        ))
        (new_server-IsReady h c x now statics entropy v) in
    ap (λ o. (server_listen h c x later p_size datagram o).1) e
    ∙ listen-survives h c x sizes later p_size datagram t fits q.0 q.1
