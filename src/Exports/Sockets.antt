-- ===== src/Exports/Sockets.antt =====
-- The exported functions of Socket.cpp.
use game_network.Base.{ℕ, Bool, false, List, Option, none, some}
use game_network.Platform.{Host}
use game_network.Address.{Address, no_address}
use game_network.Socket.{
  initialize_sockets, shutdown_sockets, Socket, OpenAnswers, new_socket_object, open_socket, close,
  is_open, destroy, send_datagram, send_to_text, receive,
}
use game_network.Exports.{at_object, ask_object}

-- `Internal_SocketCreate`, in a program that is in the state `s`.
abbrev pub socket_create : Bool → Socket → Option Socket
socket_create answer s = some (new_socket_object answer s)

-- `Internal_SocketDestroy`, with the object as its destructor leaves it.
abbrev pub socket_destroy : Bool → Option Socket → Option Socket × Unit {0}
socket_destroy answer = at_object tt (λ s. (destroy answer s, tt))

-- `Internal_SocketClose` and `Internal_SocketIsOpen`
abbrev pub socket_close : Bool → Option Socket → Option Socket × Bool
socket_close answer = at_object false (close answer)

abbrev pub socket_is_open : Option Socket → Bool
socket_is_open = ask_object false is_open

module _ (h : Host) where
  -- `Internal_SocketOpen`, whose address is the default of `Open`, 0.0.0.0.
  abbrev pub socket_open : OpenAnswers → ℕ → Option Socket → Option Socket × Bool
  socket_open answers port = at_object false (open_socket h answers port no_address)

  -- `Internal_SocketSend` and `Internal_SocketSend_string`
  abbrev pub socket_send : Option ℕ → Address → List ℕ → Option Socket → Option Socket × Bool
  socket_send answer a bytes = at_object false (send_datagram h answer a bytes)

  abbrev pub socket_send_string : Option ℕ → ℕ → ℕ → List ℕ → Option Socket → Option Socket × Bool
  socket_send_string answer address port bytes =
      at_object false (send_to_text h answer address port bytes)

  -- `Internal_SocketReceive`; `none` is -1.
  abbrev pub socket_receive :
      Option (ℕ × ℕ × List ℕ) → Option Socket → Option Socket × Option (Address × List ℕ)
  socket_receive answer = at_object none (receive h answer)

-- The global functions of NetworkPlugin.cpp, which pass on to NetworkAPI's; `code` is what
-- `WSAGetLastError` answers.
abbrev pub initialize_all : Bool → Socket → Socket × Bool
initialize_all = initialize_sockets

abbrev pub shutdown_all : Socket → Socket
shutdown_all = shutdown_sockets

abbrev pub socket_get_last_error : ℕ → ℕ
socket_get_last_error code = code

-- `RegisterDebugCallback`, with the callback as it was; `none` is NULL.
abbrev pub register_debug_callback : {C : Type 0} → Option C → C → C
register_debug_callback none callback = callback
register_debug_callback (some c) callback = c
