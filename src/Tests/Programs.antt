-- ===== src/Tests/Programs.antt =====
-- The theorems on the exported functions, with a client and a server that get a datagram.
use game_network.Base.{arith, ◌++◌, ok, ◌≡◌, true, List, [], ◌∷◌, some, none, ◌≢◌, refl}
use game_network.Crc.{program_start}
use game_network.Crc.Table
use game_network.Crc.Table.{program_start-IsValid}
use game_network.Packet.{challenge}
use game_network.Packet.Keys
use game_network.Tests.Ends.{sizes, newcomer}
use game_network.Client.{Client, new_client}
use game_network.Server.{Server}
use game_network.Exports.Clients
use game_network.Exports.Clients.{client_get_state, client_get_index}
use game_network.Exports.Joining.{challenge_datagram, accepted_datagram, exports-connect}
use game_network.Exports.Servers
use game_network.Exports.Servers.{server_create, server_listen}
use game_network.Exports.Lobby.{lobby-survives}
use game_network.Program.{Program, start, server_round, server_thread}
use game_network.Program.Runs.{Run, no_step, one_more, serves, Run-quiet}
use game_network.Server.Listen.{listen, nothing_heard}
use game_network.Socket.{receive_into}
use game_network.Buffer.{new_buffer}
use game_network.Crc.Table.{program_start-IsValid}
use game_network.Base.Int.{pos}
use game_network.Packet.{verify_packet_crc}
use game_network.Server.Handlers.{new_server, propagate_game_data}
use game_network.Server.Propagation.{packets, propagate_game_data-packets}
use game_network.Tests.{host, crypto, exchange, alice, bob, busy, busy-IsValid}

abbrev played : List (Clients.Request host crypto exchange)
played =
    Clients.to_connect
    ∷ Clients.to_listen 9 9 64 (
        some (
          alice,
          Keys.wire_of host crypto exchange sizes 6 program_start program_start-IsValid challenge,
        ))
    ∷ Clients.to_respond
    ∷ Clients.to_send true (7 ∷ []) 1
    ∷ Clients.to_disconnect
    ∷ []

newcomer-IsValid : Table.IsValid newcomer.statics
unfolding new_client
newcomer-IsValid = program_start-IsValid

exports-connect_example :
    let o =
      Clients.perform_all host crypto exchange
        (Clients.to_connect
          ∷ Clients.to_listen 9 9 64 (
              challenge_datagram host crypto exchange sizes 9 9 64 alice newcomer newcomer-IsValid 6
                program_start program_start-IsValid 1)
          ∷ Clients.to_respond
          ∷ Clients.to_listen 9 9 64 (
              accepted_datagram host crypto exchange sizes 9 9 64 alice newcomer newcomer-IsValid 6
                program_start program_start-IsValid 1)
          ∷ [])
        (some newcomer) in
    (client_get_state o ≡ pos 3) × (client_get_index o ≡ pos 1)
unfolding new_client
exports-connect_example =
    exports-connect host crypto exchange sizes 9 9 64 alice newcomer newcomer-IsValid 6
      program_start program_start-IsValid 1 refl (omega arith) (omega arith)

abbrev hosted : List (Servers.Request host crypto exchange)
hosted =
    Servers.to_register true
    ∷ Servers.to_listen 9 64 (some (alice, 1 ∷ 2 ∷ 3 ∷ 4 ∷ 5 ∷ []))
    ∷ Servers.to_game 10
    ∷ Servers.to_propagate 11 (7 ∷ []) 1
    ∷ []

abbrev calm : List (Servers.Request host crypto exchange)
calm =
    Servers.to_register true
    ∷ Servers.to_listen 9 64 (some (alice, 1 ∷ 2 ∷ 3 ∷ 4 ∷ 5 ∷ []))
    ∷ Servers.to_lobby
    ∷ []

lobby-survives_example :
    (server_listen host crypto exchange 12 64 (some (bob, 1 ∷ 2 ∷ 3 ∷ [])) (
      Servers.perform_all host crypto exchange calm
        (server_create host crypto exchange 9 program_start 3))).1
    ≡ ok nothing_heard
lobby-survives_example =
    lobby-survives host crypto exchange sizes calm 9 program_start 3 12 64
      (some (bob, 1 ∷ 2 ∷ 3 ∷ [])) (tt, (tt, (tt, tt))) program_start-IsValid (omega arith)

abbrev begun : Program
begun = start host crypto exchange 9 program_start 3 5

abbrev idle : Program
idle = server_round host crypto exchange 10 none begun

abbrev later : Program
later = server_round host crypto exchange 11 (some (bob, 1 ∷ 2 ∷ 3 ∷ [])) idle

two_rounds : Run host crypto exchange begun later
unfolding server_round listen new_server receive_into new_buffer verify_packet_crc
two_rounds =
    one_more begun idle later
      (one_more begun begun idle (no_step begun) (serves begun 10 none refl refl tt))
      (serves idle 11 (some (bob, 1 ∷ 2 ∷ 3 ∷ [])) refl refl (omega arith))

Run-quiet_example :
    (later.server_printed ≡ [])
    × (later.failed ≢ some server_thread)
    × (later.serving ≡ true → (s : Server) × (later.server ≡ some s))
Run-quiet_example =
    Run-quiet host crypto exchange sizes 9 program_start 3 5 later program_start-IsValid two_rounds

-- Bob has connection 2 of the server, and no other client has one.
propagate_game_data-packets_example :
    let (t, r) = propagate_game_data host crypto exchange 9 (7 ∷ 8 ∷ []) 2 busy in
    (r ≡ ok tt)
    × (t.sent ≡ busy.sent ++ packets host crypto exchange 9 (7 ∷ 8 ∷ []) (omega arith) 3 1 busy)
propagate_game_data-packets_example =
    propagate_game_data-packets host crypto exchange 9 (7 ∷ 8 ∷ []) (omega arith) busy busy-IsValid
