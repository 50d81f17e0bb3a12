-- ===== src/Socket/Broadcast.antt =====
-- Client.cpp's SetupBroadcastSocket, which opens the client's socket and allows it to broadcast.
use game_network.Base.{arith, ℕ, ◌≡◌, Bool, false, ◌&&◌, if◌then◌else◌}
use game_network.Platform.{Host}
use game_network.Address.{no_address}
use game_network.Socket.{Socket, OpenAnswers, open_socket, set_up, allow_broadcast, is_open}
use game_network.Socket.States.{is_some}

-- `CLIENT_PORT`
abbrev pub client_port : ℕ
client_port = 0

module _ (h : Host) where
  -- With whether there is no message at the end.
  unfoldable pub setup_broadcast_socket : OpenAnswers → Bool → Socket → Socket × Bool
  unfolding open_socket allow_broadcast
  setup_broadcast_socket answers allowed s =
      let (s', opened) = open_socket h answers client_port no_address s in
      if opened then allow_broadcast allowed s' else (s', false)

  -- A client is set up without a message exactly where every call succeeds. Its socket is open as
  -- soon as there is a handle, also where there is a message.
  pub setup_broadcast_socket-is_open :
      (answers : OpenAnswers) (allowed : Bool) (s : Socket)
      → let (s', r) = setup_broadcast_socket answers allowed s in
        (is_open s' ≡ is_some answers.created)
        × (r
            ≡ is_some answers.created
              && (answers.reused && (answers.bound && (answers.unblocked && allowed))))
  unfolding setup_broadcast_socket open_socket set_up allow_broadcast is_open
  setup_broadcast_socket-is_open answers allowed s = ground arith
