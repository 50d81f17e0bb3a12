-- ===== src/Tests/Sockets.antt =====
-- The theorems on the socket, with a socket that has been opened.
use game_network.Base.{◌≡◌, refl, true, false, [], ◌∷◌, some}
use game_network.Address.{no_address}
use game_network.Socket.{OpenAnswers, program_start, open_socket, is_open}
use game_network.Socket.States.{
  open_socket-is_open, opens, closes, shuts_down, run_all, cleanups, run_all-quiet,
}
use game_network.Tests.{host}

-- The port is taken.
abbrev taken : OpenAnswers
taken = record { started = true; created = some 3; reused = true; bound = false; unblocked = true }

open_socket-is_open_example :
    let (s', r) = open_socket host taken 8755 no_address program_start in
    (is_open s' ≡ true) × (r ≡ false)
open_socket-is_open_example = open_socket-is_open host taken 8755 no_address program_start

run_all-quiet_example :
    ((run_all host
        (opens taken 8755 no_address ∷ closes true ∷ shuts_down ∷ [])
        program_start).is_initialized
      ≡ false)
    × (cleanups
          (run_all host
            (opens taken 8755 no_address ∷ closes true ∷ shuts_down ∷ [])
            program_start).calls
        ≡ 0)
run_all-quiet_example =
    run_all-quiet host (opens taken 8755 no_address ∷ closes true ∷ shuts_down ∷ []) program_start
      refl
