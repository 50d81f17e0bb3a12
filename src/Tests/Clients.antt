-- ===== src/Tests/Clients.antt =====
-- The theorems on the client alone, with clients that wait to be accepted or play.
use game_network.Base.{
  arith, ℕ, ◌+◌, ◌^◌, ◌-◌, ◌<◌, ◌≡◌, refl, ap, true, List, [], ◌∷◌, Option, some, ok, throws,
  out_of_range, if◌then◌else◌, leb, Result,
}
use game_network.Base.Int.{pos, negsuc}
use game_network.Address.{Address}
use game_network.Base.Outcomes.{Ends}
use game_network.Crc.{program_start}
use game_network.Crc.Table.{program_start-IsValid}
use game_network.Packet.{verify_packet_hmac, invalid_packet, sequence_greater_than}
use game_network.Packet.Data
use game_network.Packet.Data.{IsSendable}
use game_network.Packet.Signed.{signed}
use game_network.Packet.Control.{accepted_text}
use game_network.Socket.Wire.{slack_of}
use game_network.Buffer.Cursor.{cursor}
use game_network.Client.{
  Client, new_client, is_connected, sending_challenge_response, disconnect, send_disconnect,
}
use game_network.Client.Listen.{Heard, listen, nothing_heard}
use game_network.Client.Joining.{listen-accepted}
use game_network.Client.Machine.{Edge, Step-Edge, hears, disconnects}
use game_network.Client.Traces.{Enters, Steps, none_yet, then_one, Steps-Enters}
use game_network.Client.Invariant.{IsSound, IsSound-new_client, Steps-IsSound}
use game_network.Client.Data.{noted, listen_data-answer}
use game_network.Client.Memory.{Nothing, listen-Ends}
use game_network.Client.Strangers.{
  listen_short-throws, listen_rejected-redirects, early_data-disconnects,
}
use game_network.Tests.{host, crypto, exchange, alice, bob, data_packet}
use game_network.Tests.Ends.{sizes, player}

Step-Edge_example : Edge player.state (send_disconnect host crypto exchange player).0.state
Step-Edge_example =
    Step-Edge host crypto exchange player (send_disconnect host crypto exchange player).0
      (disconnects player)

abbrev waiting : Client
waiting = record player { state = sending_challenge_response }

abbrev acceptance : Option (Address × List ℕ)
acceptance = some (alice, signed host crypto waiting.shared_key (accepted_text host crypto 1))

abbrev admitted : Client
admitted = (listen host crypto exchange 9 9 64 acceptance waiting).0

walk : Steps host crypto exchange waiting admitted
walk = then_one waiting waiting admitted (none_yet waiting) (hears waiting 9 9 64 acceptance)

is_admitted : is_connected admitted.state ≡ true
is_admitted =
    ap (λ (r : Client × Result Heard). is_connected r.0.state)
      (listen-accepted host crypto exchange sizes 9 9 64 alice waiting 1 (omega arith) refl
        (omega arith))

Steps-Enters_example : Enters host crypto exchange waiting admitted
Steps-Enters_example = Steps-Enters host crypto exchange waiting admitted refl walk is_admitted

abbrev idle : Client
idle = new_client program_start 5

Steps-IsSound_example : IsSound (listen host crypto exchange 9 9 64 acceptance idle).0
Steps-IsSound_example =
    Steps-IsSound host crypto exchange idle (listen host crypto exchange 9 9 64 acceptance idle).0
      (then_one idle idle (listen host crypto exchange 9 9 64 acceptance idle).0 (none_yet idle)
        (hears idle 9 9 64 acceptance))
      (IsSound-new_client program_start 5)

sendable : IsSendable data_packet
sendable = record { sequence_fits = omega arith; has_size = refl }

fits : data_packet.game_data_size + crypto.hmac_size < 2 ^ 31 - 11
fits = omega arith

listen_data-answer_example :
    let (s', r) =
      listen host crypto exchange 9 9 2
        (some (alice, Data.data_wire host crypto data_packet sendable fits player.shared_key))
        player in
    r
      ≡ ok (
          if sequence_greater_than 513 player.ack
          then (if leb 3 2 then (pos 3, data_packet.game_data) else (negsuc 0, []))
          else nothing_heard)
    × (s'.ack ≡ (if sequence_greater_than 513 player.ack then 513 else player.ack))
unfolding new_client
listen_data-answer_example =
    listen_data-answer host crypto exchange data_packet sendable fits 9 9 2 alice player
      (omega arith) refl

early_data-disconnects_example :
    listen host crypto exchange 9 9 64
      (some (bob, Data.data_wire host crypto data_packet sendable fits waiting.shared_key))
      waiting
    ≡ (
      disconnect (noted host crypto exchange data_packet sendable fits 9 bob waiting),
      ok nothing_heard,
    )
early_data-disconnects_example =
    early_data-disconnects host crypto exchange 9 9 64 bob waiting data_packet sendable fits refl
      (omega arith)

listen_short-throws_example :
    (listen host crypto exchange 9 9 64 (some (bob, 1 ∷ 2 ∷ [])) idle).1 ≡ throws out_of_range
unfolding new_client
listen_short-throws_example =
    listen_short-throws host crypto exchange 9 9 64 bob idle (1 ∷ 2 ∷ []) refl (omega arith)
      (omega arith)

listen-Ends_example :
    Ends Nothing (listen host crypto exchange 9 9 64 (some (bob, 1 ∷ 2 ∷ [])) idle).1
unfolding new_client
listen-Ends_example =
    listen-Ends host crypto exchange sizes 9 64 9 (some (bob, 1 ∷ 2 ∷ [])) idle (omega arith)
      program_start-IsValid refl

too_short :
    verify_packet_hmac host crypto player.shared_key (cursor [] (1 ∷ []) (slack_of host (1 ∷ [])))
    ≡ ok (invalid_packet, cursor [] (1 ∷ []) (slack_of host (1 ∷ [])))
unfolding verify_packet_hmac
too_short = refl

listen_rejected-redirects_example :
    listen host crypto exchange 9 9 64 (some (bob, 1 ∷ [])) player
    ≡ (record player { server_address = bob }, ok nothing_heard)
unfolding new_client
listen_rejected-redirects_example =
    listen_rejected-redirects host crypto exchange 9 9 64 bob player (1 ∷ [])
      (cursor [] (1 ∷ []) (slack_of host (1 ∷ []))) refl refl (omega arith) too_short
