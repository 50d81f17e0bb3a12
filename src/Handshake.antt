-- ===== src/Handshake.antt =====
-- The client and the server together: Client.cpp's Connect, Listen and RespondChallenge, and
-- Server.cpp's Listen, with a network between them that delivers the last datagram that was sent.
pub mod Connects
pub mod Stream
pub mod Losses
pub mod Session
pub mod Leaving
pub mod Visit
use game_network.Base.{ℕ, ◌||◌, if◌then◌else◌, List, [], ◌∷◌, Option, none, some}
use game_network.Platform.{Host, Crypto, KeyExchange}
use game_network.Address.{Address, same_address}
use game_network.Client.{Client, connect, respond_challenge, broadcast_address}
use game_network.Client.Listen.{listen as client_listen}
use game_network.Server.{Server}
use game_network.Server.Listen.{listen as server_listen}

abbrev pub last : List (Address × List ℕ) → Option (Address × List ℕ)
last [] = none
last (d ∷ []) = some d
last (d ∷ e ∷ ds) = last (e ∷ ds)

abbrev pub delivered : Address → Address → Option (Address × List ℕ) → Option (Address × List ℕ)
delivered to from none = none
delivered to from (some (a, bytes)) =
    if same_address a to || same_address a broadcast_address then some (from, bytes) else none

-- What arrives at `to` of what `from` has sent: the last datagram, where it is for `to` or for all.
abbrev pub arriving : Address → Address → List (Address × List ℕ) → Option (Address × List ℕ)
arriving to from log = delivered to from (last log)

module _ (h : Host) (c : Crypto) (x : KeyExchange) (now p_size : ℕ) (ca sa : Address) where
  abbrev pub server_hears : Client → Server → Server
  server_hears cl sv = (server_listen h c x now p_size (arriving sa ca cl.sent) sv).0

  abbrev pub client_hears : Server → Client → Client
  client_hears sv cl = (client_listen h c x now now p_size (arriving ca sa sv.sent) cl).0

  -- Several datagrams of the client's arrive at the server, one after the other.
  unfoldable pub server_hears_each : List (Address × List ℕ) → Server → Server
  server_hears_each [] sv = sv
  server_hears_each (d ∷ ds) sv =
      server_hears_each ds (server_listen h c x now p_size (delivered sa ca (some d)) sv).0

  -- The client at `ca` asks, the server at `sa` challenges it, the thread of the client responds, the
  -- server accepts, and the client hears of it.
  pub handshake : Client → Server → Client × Server
  handshake cl sv =
      let cl₁ = (connect h c x cl).0 in
      let sv₁ = server_hears cl₁ sv in
      let cl₂ = (respond_challenge h c x (client_hears sv₁ cl₁)).0 in
      let sv₂ = server_hears cl₂ sv₁ in (client_hears sv₂ cl₂, sv₂)
