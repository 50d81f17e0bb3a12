-- ===== src/Program.antt =====
-- TestNetworkPlugin/main.cpp: a server and a client in one process, each with a thread that listens,
-- and the main thread that connects the client, has the server send a text, and stops.
--
-- A call of the plugin is one step, and the threads' steps come in any order; what is received in a
-- step, and when, is the step's own. `std::cin.get` lets any time pass. An exception that leaves a
-- thread's function, and a fault, end the process. The texts that are printed are kept as the bytes
-- that were stored.
pub mod Runs
use game_network.Base.{
  ℕ, Bool, true, false, ◌≡◌, if◌then◌else◌, List, [], ◌∷◌, ◌++◌, Option, none, some, Result, ok,
  throws, fault,
}
use game_network.Base.Int.{is_positive}
use game_network.Platform.{Host, Crypto, KeyExchange}
use game_network.Address.{Address}
use game_network.Crc.{Statics}
use game_network.Client.{Client}
use game_network.Client.Listen as ClientListen
use game_network.Server.{Server}
use game_network.Server.Listen as ServerListen
use game_network.Exports.Clients.{client_create, client_connect, client_listen, client_destroy}
use game_network.Exports.Servers.{
  server_create, server_listen, server_propagate_game_data, server_destroy,
}

pub data Thread : Type 0 where
  main_thread server_thread client_thread : Thread

-- The statement of `main` that is next.
pub data Place : Type 0 where
  connecting propagating stopping joining finished : Place

-- `failed` is the thread that has ended the process. `serving` and `following` say whether the
-- functions of the two threads have not returned.
pub record Program : Type 0 where
  pub server : Option Server
  pub client : Option Client
  pub is_running : Bool
  pub place : Place
  pub serving : Bool
  pub following : Bool
  pub server_printed : List (List ℕ)
  pub client_printed : List (List ℕ)
  pub failed : Option Thread

-- `char test[5] = "toto"`
abbrev pub test_text : List ℕ
test_text = b't' ∷ b'o' ∷ b't' ∷ b'o' ∷ 0 ∷ []

abbrev pub ended : {A : Type 0} → Thread → Result A → Program → Program
ended t (ok a) p = p
ended t (throws e) p = record p { failed = some t }
ended t fault p = record p { failed = some t }

-- `if (ret > 0)` there is a line.
abbrev pub server_line : Result ServerListen.Heard → Program → Program
server_line (ok (ret, bytes)) p =
    if is_positive ret then record p { server_printed = p.server_printed ++ bytes ∷ [] } else p
server_line (throws e) p = record p { failed = some server_thread }
server_line fault p = record p { failed = some server_thread }

abbrev pub client_line : Result ClientListen.Heard → Program → Program
client_line (ok (ret, bytes)) p =
    if is_positive ret then record p { client_printed = p.client_printed ++ bytes ∷ [] } else p
client_line (throws e) p = record p { failed = some client_thread }
client_line fault p = record p { failed = some client_thread }

module _ (h : Host) (c : Crypto) (x : KeyExchange) where
  -- `main`, up to the start of its threads.
  abbrev pub start : ℕ → Statics → ℕ → ℕ → Program
  start now statics server_entropy client_entropy = record {
    server = server_create h c x now statics server_entropy;
    client = client_create statics client_entropy;
    is_running = true;
    place = connecting;
    serving = true;
    following = true;
    server_printed = [];
    client_printed = [];
    failed = none;
  }

  -- A round of `ServListen`, with no room for what is received, and of `ClientListen`.
  unfoldable pub server_round : ℕ → Option (Address × List ℕ) → Program → Program
  server_round now datagram p =
      let (o, r) = server_listen h c x now 0 datagram p.server in
      server_line r (record p { server = o })

  unfoldable pub client_round : ℕ → ℕ → Option (Address × List ℕ) → Program → Program
  unfolding client_listen
  client_round now later datagram p =
      let (o, r) = client_listen h c x now later 255 datagram p.client in
      client_line r (record p { client = o })

  -- The statements of `main` behind the start of the threads.
  unfoldable pub main_connects : Program → Program
  unfolding client_connect
  main_connects p =
      let (o, r) = client_connect h c x p.client in
      ended main_thread r (record p { client = o; place = propagating })

  unfoldable pub main_propagates : ℕ → Program → Program
  main_propagates now p =
      let (o, r) = server_propagate_game_data h c x now test_text 5 p.server in
      ended main_thread r (record p { server = o; place = stopping })

  abbrev pub main_stops : Program → Program
  main_stops p = record p { is_running = false; place = joining }

  unfoldable pub main_destroys : ℕ → Program → Program
  unfolding client_destroy
  main_destroys now p =
      let (o, r) = client_destroy h c x p.client in
      let (o', r') = server_destroy h c x now p.server in
      ended main_thread r'
        (ended main_thread r (record p { client = o; server = o'; place = finished }))
