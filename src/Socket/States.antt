-- ===== src/Socket/States.antt =====
-- When a socket is open, what the calls of WinSock are made with, and what is never called.
use game_network.Base.{
  arith, ℕ, ◌+◌, ◌≡◌, refl, ◌∙◌, Bool, true, false, not, ◌&&◌, if◌then◌else◌, List, [], ◌∷◌, ◌++◌,
  Option, none, some,
}
use game_network.Platform.{Host}
use game_network.Address.{Address}
use game_network.Socket.{
  Call, wsa_cleanup, Socket, OpenAnswers, initialize_sockets, shutdown_sockets, new_socket_object,
  open_socket, set_up, close, is_open, destroy, allow_broadcast, send_datagram, send_to_text,
  receive,
}

abbrev pub is_some : {A : Type 0} → Option A → Bool
is_some none = false
is_some (some a) = true

module _ (h : Host) where
  -- Open returns true exactly where every call succeeds, and leaves the socket open as soon as there
  -- is a handle, also where a later call fails and it returns false.
  pub open_socket-is_open :
      (answers : OpenAnswers) (port : ℕ) (a : Address) (s : Socket)
      → let (s', r) = open_socket h answers port a s in
        (is_open s' ≡ is_some answers.created)
        × (r ≡ is_some answers.created && (answers.reused && (answers.bound && answers.unblocked)))
  unfolding open_socket set_up is_open
  open_socket-is_open answers port a s = ground arith

-- Close returns false exactly where it leaves the socket open. Once the socket has been closed, to
-- close it again calls nothing and returns true, whatever the call would answer.
pub close-is_open :
    (answer again : Bool) (s : Socket)
    → let (s', r) = close answer s in
      let closed = (close true s).0 in (is_open s' ≡ not r) × (close again closed ≡ (closed, true))
unfolding close is_open
close-is_open answer again s = ground arith

-- The calls of the program on its socket, with what WinSock answers, and the end of the program.
pub data Use : Type 0 where
  constructs : Bool → Use
  opens : OpenAnswers → ℕ → Address → Use
  closes destroys broadcasts : Bool → Use
  sends : Option ℕ → Address → List ℕ → Use
  sends_to_text : Option ℕ → ℕ → ℕ → List ℕ → Use
  receives : Option (ℕ × ℕ × List ℕ) → Use
  shuts_down : Use

-- The calls that start and end the use of WinSock.
abbrev pub is_cleanup : Call → Bool
is_cleanup wsa_cleanup = true
is_cleanup _ = false

abbrev pub cleanups : List Call → ℕ
cleanups [] = 0
cleanups (k ∷ ks) = if is_cleanup k then cleanups ks + 1 else cleanups ks

module _ (h : Host) where
  unfoldable pub run : Use → Socket → Socket
  unfolding new_socket_object open_socket close destroy allow_broadcast send_datagram send_to_text
      receive shutdown_sockets
  run (constructs answer) s = new_socket_object answer s
  run (opens answers port a) s = (open_socket h answers port a s).0
  run (closes answer) s = (close answer s).0
  run (destroys answer) s = destroy answer s
  run (broadcasts answer) s = (allow_broadcast answer s).0
  run (sends answer a bytes) s = (send_datagram h answer a bytes s).0
  run (sends_to_text answer address port bytes) s = (send_to_text h answer address port bytes s).0
  run (receives answer) s = (receive h answer s).0
  run shuts_down s = shutdown_sockets s

  unfoldable pub run_all : List Use → Socket → Socket
  unfolding run
  run_all [] s = s
  run_all (u ∷ us) s = run_all us (run u s)

  run-fresh : (u : Use) (s : Socket) → s.is_initialized ≡ false → (run u s).is_initialized ≡ false
  unfolding run initialize_sockets set_up is_open
  run-fresh (constructs answer) s e = ground arith
  run-fresh (opens answers port a) s e = ground arith
  run-fresh (closes answer) s e = ground arith
  run-fresh (destroys answer) s e = ground arith
  run-fresh (broadcasts answer) s e = ground arith
  run-fresh (sends answer a bytes) s e = ground arith
  run-fresh (sends_to_text answer address port bytes) s e = ground arith
  run-fresh (receives answer) s e = ground arith
  run-fresh shuts_down s e = ground arith

  quiet : (ks : List Call) (k : Call) → is_cleanup k ≡ false → cleanups (ks ++ k ∷ []) ≡ cleanups ks
  quiet [] k e = rw e
  quiet (l ∷ ks) k e = rw (quiet ks k e)

  run-quiet :
      (u : Use) (s : Socket)
      → s.is_initialized ≡ false
      → cleanups (run u s).calls ≡ cleanups s.calls
  unfolding run initialize_sockets set_up is_open
  run-quiet (constructs answer) s e = grind (arith, quiet)
  run-quiet (opens answers port a) s e = grind (arith, quiet)
  run-quiet (closes answer) s e = grind (arith, quiet)
  run-quiet (destroys answer) s e = grind (arith, quiet)
  run-quiet (broadcasts answer) s e = grind (arith, quiet)
  run-quiet (sends answer a bytes) s e = grind (arith, quiet)
  run-quiet (sends_to_text answer address port bytes) s e = quiet s.calls _ refl
  run-quiet (receives answer) s e = grind (arith, quiet)
  run-quiet shuts_down s e = grind (arith, quiet)

  -- From a state in which `isInitialized` is false, as it is when the program starts, no sequence of
  -- uses of the sockets makes it true, and none of them, ShutdownSockets included, calls WSACleanup.
  pub run_all-quiet :
      (us : List Use) (s : Socket)
      → s.is_initialized ≡ false
      → ((run_all us s).is_initialized ≡ false) × (cleanups (run_all us s).calls ≡ cleanups s.calls)
  unfolding run_all
  run_all-quiet [] s e = (e, refl)
  run_all-quiet (u ∷ us) s e =
      let (still, more) = run_all-quiet us (run u s) (run-fresh u s e) in
      (still, more ∙ run-quiet u s e)
