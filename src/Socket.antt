-- ===== src/Socket.antt =====
-- Socket.h, Socket.cpp and the class NetworkAPI of NetworkPlugin.cpp.
--
-- What WinSock answers comes in as arguments; the calls that are made of it are kept in their order.
-- A handle is a number, and INVALID_SOCKET is `none`. The messages of `g_debugCallback` are left
-- out, and so are the constants of the calls (AF_INET and the like).
pub mod States
pub mod Wire
pub mod Broadcast
use game_network.Base.{
  ℕ, ◌+◌, Bool, true, false, if◌then◌else◌, not, List, [], ◌∷◌, ◌++◌, Option, none, some, ◌==◌,
  length, drop, take, leb,
}
use game_network.Base.Int.{pos, negsuc}
use game_network.Platform.{Host}
use game_network.Address.{Address, get_address, get_n_port}
use game_network.Buffer.{Buffer, new_buffer}

-- Addresses and ports are in network order.
pub data Call : Type 0 where
  wsa_startup wsa_cleanup new_socket : Call
  reuse_address non_blocking broadcast shut_down close_socket receive_from : ℕ → Call
  bind : ℕ → ℕ → ℕ → Call
  send_to : Option ℕ → ℕ → ℕ → List ℕ → Call

-- `handle` is `m_handle`, and `is_initialized` the static of NetworkAPI.
pub record Socket : Type 0 where
  pub handle : Option ℕ
  pub is_initialized : Bool
  pub calls : List Call

abbrev called : Call → Socket → Socket
called c s = record s { calls = s.calls ++ c ∷ [] }

-- `NetworkAPI::InitializeSockets`, which nothing tells that it has succeeded.
unfoldable pub initialize_sockets : Bool → Socket → Socket × Bool
initialize_sockets answer s =
    if not s.is_initialized then (called wsa_startup s, answer) else (s, true)

-- `NetworkAPI::ShutdownSockets`
unfoldable pub shutdown_sockets : Socket → Socket
shutdown_sockets s = if s.is_initialized then called wsa_cleanup s else s

-- The program's start, and `Socket()`.
abbrev pub program_start : Socket
program_start = record { handle = none; is_initialized = false; calls = [] }

unfoldable pub new_socket_object : Bool → Socket → Socket
unfolding initialize_sockets
new_socket_object answer s = (initialize_sockets answer (record s { handle = none })).0

-- What the calls of `Open` answer, each `true` where it does not fail.
pub record OpenAnswers : Type 0 where
  pub started : Bool
  pub created : Option ℕ
  pub reused : Bool
  pub bound : Bool
  pub unblocked : Bool

module _ (h : Host) where
  -- `Open`, once there is a handle.
  unfoldable pub set_up : OpenAnswers → ℕ → ℕ → Address → Socket → Socket × Bool
  set_up answers k port a s =
      let s₁ = called (reuse_address k) s in
      let s₂ = called (bind k (get_address h a) (h.short.hton port)) s₁ in
      let s₃ = called (non_blocking k) s₂ in
      if not answers.reused
      then (s₁, false)
      else if not answers.bound
      then (s₂, false)
      else (s₃, answers.unblocked)

  unfoldable pub open_socket : OpenAnswers → ℕ → Address → Socket → Socket × Bool
  unfolding set_up initialize_sockets
  open_socket answers port a s =
      let s' = (initialize_sockets answers.started s).0 in
      let s'' = called new_socket (record s' { handle = answers.created }) in
      elim answers.created [ none ↦ (s'', false) | some k ↦ set_up answers k port a s'' ]

abbrev close_handle : Bool → Option ℕ → Socket → Socket × Bool
close_handle answer none s = (s, true)
close_handle answer (some k) s =
    let s' = called (close_socket k) (called (shut_down k) s) in
    if not answer then (s', false) else (record s' { handle = none }, true)

-- `answer` says whether `closesocket` succeeds.
unfoldable pub close : Bool → Socket → Socket × Bool
close answer s = close_handle answer s.handle s

unfoldable pub is_open : Socket → Bool
is_open s = elim s.handle [ none ↦ false | some k ↦ true ]

-- `~Socket`
unfoldable pub destroy : Bool → Socket → Socket
unfolding is_open close
destroy answer s = if is_open s then (close answer s).0 else s

unfoldable pub allow_broadcast : Bool → Socket → Socket × Bool
allow_broadcast answer s = elim s.handle [
  | none ↦ (s, false)
  | some k ↦ (called (broadcast k) s, answer)
]

-- `sentBytes == p_size`; `none` is SOCKET_ERROR.
abbrev all_sent : Option ℕ → ℕ → Bool
all_sent none size = false
all_sent (some n) size = n == size

module _ (h : Host) where
  unfoldable pub send_datagram : Option ℕ → Address → List ℕ → Socket → Socket × Bool
  send_datagram answer a bytes s = elim s.handle [
    | none ↦ (s, false)
    | some k ↦ (
      called (send_to (some k) (get_address h a) (get_n_port h a) bytes) s,
      all_sent answer (length bytes),
    )
  ]

  -- `Send` with the text of an address, of which `inet_pton` makes the number `address`.
  unfoldable pub send_to_text : Option ℕ → ℕ → ℕ → List ℕ → Socket → Socket × Bool
  send_to_text answer address port bytes s = (
    called (send_to s.handle address (h.short.hton port) bytes) s,
    all_sent answer (length bytes),
  )

  -- The sender and what it sent, from the numbers in network order that `recvfrom` gives. Nothing
  -- is what `Receive` returns -1 for, and leaves `o_sender` as it is.
  unfoldable pub receive : Option (ℕ × ℕ × List ℕ) → Socket → Socket × Option (Address × List ℕ)
  receive answer s = elim s.handle [
    | none ↦ (s, none)
    | some k ↦ (
      called (receive_from k) s,
      elim answer [
        | none ↦ none
        | some (address, port, bytes) ↦
            some (record { address = h.long.ntoh address; port = h.short.ntoh port }, bytes)
      ],
    )
  ]

  -- `Buffer buffer(1024); buffer.size = m_socket.Receive(sender, buffer.data, buffer.size)`, where
  -- the sender was `old`. Of a datagram of more than 1024 bytes `recvfrom` stores the first 1024, and is
  -- a SOCKET_ERROR: the size is -1, and the sender stays.
  unfoldable pub receive_into : Address → Option (Address × List ℕ) → Address × Buffer
  receive_into old none = (old, record (new_buffer h 1024) { size = negsuc 0 })
  receive_into old (some (sender, bytes)) =
      if leb (length bytes) 1024
      then (
        sender,
        record {
          memory = some (bytes ++ drop (length bytes) (h.fresh 1024));
          size = pos (length bytes);
          index = 0;
        },
      )
      else (old, record { memory = some (take 1024 bytes); size = negsuc 0; index = 0 })
