-- ===== src/Tests/Ends.antt =====
-- The theorems on a client and a server together, with a client that is new and one that plays.
use game_network.Base.{
  zero, suc, ◌≢◌, get_or, set, drop, length, ◌&&◌, false, arith, ℕ, ◌≡◌, refl, true, List, [], ◌∷◌,
  ◌++◌, ok,
}
use game_network.Base.Int.{pos, negsuc, add_one_ℤ, sub_one_ℤ}
use game_network.Base.Bytes.{le_bytes}
use game_network.Platform.{KeySizes}
use game_network.Address.{Address, same_address}
use game_network.Crc.{Statics, program_start}
use game_network.Crc.Table.{program_start-IsValid}
use game_network.Client.{
  Client, new_client, is_connected, is_disconnected, connected, send_disconnect,
}
use game_network.Client.{send_game_data as client_sends}
use game_network.Client.Listen.{nothing_heard}
use game_network.Client.Listen.{listen as client_listen}
use game_network.Server.{
  Server, game, no_connection, connection_at, find_existing_connection_index,
  find_existing_challenge_index, find_free_challenge_index, find_free_connection_index,
}
use game_network.Server.Handlers.{send_game_data as server_sends}
use game_network.Server.Listen.{listen as server_listen}
use game_network.Server.Joining.{HasJoined}
use game_network.Handshake.{handshake, arriving, server_hears_each}
use game_network.Handshake.Visit.{visit-restores}
use game_network.Handshake.Leaving.{leaving-frees, leaving-Stays}
use game_network.Handshake.Connects.{handshake-connects}
use game_network.Handshake.Stream.{InStep, stream, in_order, no_message, one_more, stream-in_order}
use game_network.Handshake.Losses.{data-arrives, data_lost}
use game_network.Handshake.Session.{session-in_order}
use game_network.Tests.{host, crypto, exchange, key, alice, bob, busy, busy-IsValid}

abbrev pub sizes : KeySizes crypto exchange
sizes = record {
  length_public = λ n. refl;
  public_bytes = λ n. (omega arith, (omega arith, tt));
  public_rest = λ n. refl;
  small = omega arith;
}

abbrev pub carol : Address
carol = record { address = 3232235779; port = 40000 }

abbrev pub newcomer : Client
newcomer = new_client program_start 5

handshake-connects_example :
    let (cl', sv') = handshake host crypto exchange 9 64 carol alice newcomer busy in
    (is_connected cl'.state ≡ true)
    × (cl'.index ≡ pos 1)
    × (cl'.ack ≡ newcomer.ack)
    × (cl'.server_address ≡ alice)
    × HasJoined carol cl'.shared_key 1 1 sv'
    × (sv'.num_connections ≡ add_one_ℤ busy.num_connections)
unfolding new_client find_existing_connection_index find_existing_challenge_index
    find_free_challenge_index find_free_connection_index
handshake-connects_example =
    handshake-connects host crypto exchange sizes 9 64 carol alice newcomer busy
      program_start-IsValid program_start-IsValid 0 1 busy-IsValid refl refl refl refl refl refl

-- Bob's client, and the server in the game, at the end of the sequence numbers.
abbrev pub player : Client
player = record newcomer {
  state = connected;
  shared_key = key;
  server_address = alice;
  index = pos 2;
  ack = 65535;
  sequence = 65535;
}

abbrev hosting : Server
hosting = record busy {
  state = game;
  connections =
      no_connection 0
      ∷ no_connection 0
      ∷ record (no_connection 0) { client_address = bob; shared_key = key; sequence = 65535 }
      ∷ no_connection 0
      ∷ [];
}

in_step : InStep host crypto exchange 9 64 bob alice 2 player hosting
unfolding new_client
in_step = record {
  is_open = refl;
  address = refl;
  same_key = refl;
  same_number = refl;
  number_fits = omega arith;
  has_slot = omega arith;
}

abbrev hello : List ℕ
hello = 104 ∷ 105 ∷ []

stream-in_order_example :
    stream host crypto exchange 9 64 bob alice 2 (hello ∷ (7 ∷ []) ∷ []) player hosting
    ≡ in_order host crypto exchange 9 64 bob alice 2 (hello ∷ (7 ∷ []) ∷ [])
stream-in_order_example =
    stream-in_order host crypto exchange 9 64 bob alice 2 (hello ∷ (7 ∷ []) ∷ []) player hosting
      in_step
      (one_more hello ((7 ∷ []) ∷ []) (omega arith) (omega arith)
        (one_more (7 ∷ []) [] (omega arith) (omega arith) no_message))

data-arrives_example :
    let cl' = (client_sends host crypto exchange true hello 2 player).0 in
    server_listen host crypto exchange 9 64 (arriving alice bob cl'.sent) hosting
    ≡ (hosting, ok (pos 2, le_bytes 4 2 ++ hello))
unfolding new_client find_existing_connection_index
data-arrives_example =
    data-arrives host crypto exchange 9 64 bob alice 2 hello (omega arith) player hosting refl refl
      true refl refl (omega arith) refl (omega arith) (omega arith)

-- A connection that has been made again for an old client.
abbrev fresh : Server
fresh = record hosting {
  connections =
      no_connection 0
      ∷ no_connection 0
      ∷ record (no_connection 0) { client_address = bob; shared_key = key; sequence = 0 }
      ∷ no_connection 0
      ∷ [];
}

abbrev old : Client
old = record player { ack = 40 }

data_lost_example :
    let sv' = (server_sends host crypto exchange 9 2 hello 2 fresh).0 in
    let (cl', heard) =
      client_listen host crypto exchange 9 9 64 (arriving bob alice sv'.sent) old in
    (heard ≡ ok nothing_heard) × (cl'.ack ≡ 40)
unfolding new_client
data_lost_example =
    data_lost host crypto exchange 9 64 bob alice 2 hello (omega arith) old fresh refl refl
      (omega arith) refl (omega arith) (omega arith) (omega arith)

session-in_order_example :
    let (cl', sv') = handshake host crypto exchange 9 64 carol alice newcomer busy in
    stream host crypto exchange 9 64 carol alice 1 (hello ∷ []) cl' sv'
    ≡ in_order host crypto exchange 9 64 carol alice 1 (hello ∷ [])
unfolding new_client find_existing_connection_index find_existing_challenge_index
    find_free_challenge_index find_free_connection_index
session-in_order_example =
    session-in_order host crypto exchange 9 64 carol alice sizes newcomer busy program_start-IsValid
      program_start-IsValid 0 1 (hello ∷ []) refl refl busy-IsValid refl refl refl refl refl
      (one_more hello [] (omega arith) (omega arith) no_message)

visit-restores_example :
    let (cl', sv') = handshake host crypto exchange 9 64 carol alice newcomer busy in
    let cl'' = (send_disconnect host crypto exchange cl').0 in
    let sv'' =
      server_hears_each host crypto exchange 9 64 carol alice
        (drop (length cl'.sent) cl''.sent)
        sv' in
    (is_disconnected cl''.state ≡ true)
    × (sv''.connected ≡ busy.connected)
    × (sv''.num_connections ≡ pos 2)
    × (find_free_connection_index sv'' ≡ pos 1)
    × (find_existing_connection_index carol sv'' ≡ negsuc 0)
unfolding new_client find_existing_connection_index find_existing_challenge_index
    find_free_challenge_index find_free_connection_index
visit-restores_example =
    visit-restores host crypto exchange sizes 9 64 carol alice newcomer busy program_start-IsValid
      program_start-IsValid 0 busy-IsValid refl refl refl refl refl refl

-- Bob in the second slot.
abbrev parting : Server
parting = record busy {
  connections =
      no_connection 0
      ∷ record (no_connection 0) { client_address = bob; shared_key = key }
      ∷ no_connection 0
      ∷ no_connection 0
      ∷ [];
  connected = true ∷ true ∷ false ∷ false ∷ [];
}

alone :
    (i : ℕ)
    → 1 ≢ i
    → get_or parting.connected i false && same_address (connection_at parting i).client_address bob
      ≡ false
alone zero other = refl
alone (suc zero) other = absurd (other refl)
alone (suc (suc zero)) other = refl
alone (suc (suc (suc zero))) other = refl
alone (suc (suc (suc (suc i)))) other = refl

leaving-frees_example :
    let cl' = (send_disconnect host crypto exchange player).0 in
    let sv' =
      server_hears_each host crypto exchange 9 64 bob alice
        (drop (length player.sent) cl'.sent)
        parting in
    (is_disconnected cl'.state ≡ true)
    × ((statics : Statics) × (sv' ≡ record parting {
      connected = set parting.connected 1 false;
      connections = set parting.connections 1 (no_connection 9);
      num_connections = sub_one_ℤ parting.num_connections;
      statics = statics;
    }))
unfolding new_client find_existing_connection_index find_existing_challenge_index
leaving-frees_example =
    leaving-frees host crypto exchange 9 64 bob alice (omega arith) player parting refl refl refl
      refl alone refl

leaving-Stays_example :
    let cl' = (send_disconnect host crypto exchange player).0 in
    let sv' =
      server_hears_each host crypto exchange 9 64 bob alice
        (drop (length player.sent) cl'.sent)
        hosting in
    (is_disconnected cl'.state ≡ true)
    × (find_existing_connection_index bob sv' ≡ pos 2)
    × (sv'.num_connections ≡ negsuc 7)
unfolding new_client find_existing_connection_index
leaving-Stays_example =
    leaving-Stays host crypto exchange 9 64 bob alice (omega arith) player hosting 0 refl refl refl
      refl
