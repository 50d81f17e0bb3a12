-- ===== src/Program/Runs.antt =====
-- The runs of main.cpp, and what its server thread comes to in them.
use game_network.Base.{
  ℕ, ◌+◌, ◌≡◌, ◌≢◌, refl, sym, ap, ◌∙◌, true, false, List, [], Option, none, some, Result, ok,
  throws, fault, Bool-cases, inl, inr,
}
use game_network.Base.Int.{is_positive}
use game_network.Platform.{Host, Crypto, KeyExchange, KeySizes}
use game_network.Address.{Address}
use game_network.Crc.{Statics}
use game_network.Crc.Table
use game_network.Client.{Client, respond_challenge}
use game_network.Server.{Server}
use game_network.Server.Listen.{nothing_heard, listen}
use game_network.Server.Listen as ServerListen
use game_network.Client.Listen as ClientListen
use game_network.Packet.Arriving.{Fits}
use game_network.Server.Surviving.{listen-survives}
use game_network.Server.Hearing.{listen-Keeps}
use game_network.Server.Preservation.{propagate_loop-Keeps}
use game_network.Server.Handlers.{propagate_game_data}
use game_network.Exports.Servers.{server_listen, server_propagate_game_data, server_destroy}
use game_network.Exports.Clients.{client_destroy}
use game_network.Exports.Lobby.{IsReady, IsReady-Carries, new_server-IsReady}
use game_network.Program.{
  Program, Thread, test_text, main_thread, server_thread, connecting, propagating, stopping,
  joining, finished, start, ended, client_line, server_round, client_round, main_connects,
  main_propagates, main_stops, main_destroys,
}

module _ (h : Host) (c : Crypto) (x : KeyExchange) where
  -- One step of a thread, of a process that has not ended. The thread that the client has started for
  -- RespondChallenge is one of them. A round of a thread that listens may end after the stop.
  pub data Runs : Program → Program → Type 0 where
    connects :
        (p : Program) → p.failed ≡ none → p.place ≡ connecting → Runs p (main_connects h c x p)
    propagates :
        (p : Program) (now : ℕ)
        → p.failed ≡ none
        → p.place ≡ propagating
        → Runs p (main_propagates h c x now p)
    stops : (p : Program) → p.failed ≡ none → p.place ≡ stopping → Runs p (main_stops h c x p)
    destroys :
        (p : Program) (now : ℕ)
        → p.failed ≡ none
        → p.place ≡ joining
        → p.following ≡ false
        → p.serving ≡ false
        → Runs p (main_destroys h c x now p)
    serves :
        (p : Program) (now : ℕ) (datagram : Option (Address × List ℕ))
        → p.failed ≡ none
        → p.serving ≡ true
        → Fits datagram
        → Runs p (server_round h c x now datagram p)
    stops_serving :
        (p : Program)
        → p.failed ≡ none
        → p.is_running ≡ false
        → Runs p (record p { serving = false })
    follows :
        (p : Program) (now later : ℕ) (datagram : Option (Address × List ℕ))
        → p.failed ≡ none
        → p.following ≡ true
        → Fits datagram
        → Runs p (client_round h c x now later datagram p)
    stops_following :
        (p : Program)
        → p.failed ≡ none
        → p.is_running ≡ false
        → Runs p (record p { following = false })
    responds :
        (p : Program) (s : Client) (n : ℕ)
        → p.failed ≡ none
        → p.client ≡ some s
        → s.responding ≡ n + 1
        → Runs p
            (record p { client = some (respond_challenge h c x (record s { responding = n })).0 })

  pub data Run : Program → Program → Type 0 where
    no_step : (p : Program) → Run p p
    one_more : (p q r : Program) → Run p q → Runs q r → Run p r

  -- While the server's thread runs, the server answers; the thread has printed nothing and has not
  -- ended the process.
  pub record IsQuiet (p : Program) : Type 0 where
    pub answers : p.serving ≡ true → (s : Server) × (p.server ≡ some s) × IsReady x s
    pub no_line : p.server_printed ≡ []
    pub no_failure : p.failed ≢ some server_thread

  ended-IsQuiet :
      {A : Type 0} (t : Thread) (r : Result A) (p : Program)
      → t ≢ server_thread
      → IsQuiet p
      → IsQuiet (ended t r p)
  ended-IsQuiet t (ok a) p ne q = q
  ended-IsQuiet t (throws e) p ne q = record {
    answers = q.answers;
    no_line = q.no_line;
    no_failure = λ e. ne (cc e);
  }
  ended-IsQuiet t fault p ne q = record {
    answers = q.answers;
    no_line = q.no_line;
    no_failure = λ e. ne (cc e);
  }

  client_line-IsQuiet :
      (r : Result ClientListen.Heard) (p : Program) → IsQuiet p → IsQuiet (client_line r p)
  client_line-IsQuiet (ok (ret, bytes)) p q = elim (Bool-cases (is_positive ret)) [
    | inl e ↦ rw e (record { answers = q.answers; no_line = q.no_line; no_failure = q.no_failure })
    | inr e ↦ rw e q
  ]
  client_line-IsQuiet (throws e) p q = record {
    answers = q.answers;
    no_line = q.no_line;
    no_failure = λ e. cc e;
  }
  client_line-IsQuiet fault p q = record {
    answers = q.answers;
    no_line = q.no_line;
    no_failure = λ e. cc e;
  }

  not_server : (t : Thread) → t ≡ main_thread → t ≢ server_thread
  not_server t e f = cc (e, f)

  main_connects-IsQuiet : (p : Program) → IsQuiet p → IsQuiet (main_connects h c x p)
  unfolding main_connects
  main_connects-IsQuiet p q =
      ended-IsQuiet main_thread _ _ (not_server main_thread refl)
        (record { answers = q.answers; no_line = q.no_line; no_failure = q.no_failure })

  propagated-IsReady :
      (now : ℕ) (bytes : List ℕ) (size : ℕ) (s : Server)
      → IsReady x s
      → IsReady x (propagate_game_data h c x now bytes size s).0
  unfolding propagate_game_data
  propagated-IsReady now bytes size s p =
      propagate_loop-Keeps h c x now (IsReady x) (IsReady-Carries h c x now) 3 1 bytes size s p

  main_propagates-IsQuiet :
      (p : Program) (now : ℕ) → IsQuiet p → IsQuiet (main_propagates h c x now p)
  unfolding main_propagates
  main_propagates-IsQuiet p now q =
      ended-IsQuiet main_thread _ _ (not_server main_thread refl) (record {
        answers = λ e.
            let (s, f, ready) = q.answers e in
            (
              (propagate_game_data h c x now test_text 5 s).0,
              ap (λ o. (server_propagate_game_data h c x now test_text 5 o).0) f,
              propagated-IsReady now test_text 5 s ready,
            );
        no_line = q.no_line;
        no_failure = q.no_failure;
      })

  main_destroys-IsQuiet :
      (p : Program) (now : ℕ) → p.serving ≡ false → IsQuiet p → IsQuiet (main_destroys h c x now p)
  unfolding main_destroys
  main_destroys-IsQuiet p now stopped q =
      ended-IsQuiet main_thread (server_destroy h c x now p.server).1 _
        (not_server main_thread refl)
        (ended-IsQuiet main_thread (client_destroy h c x p.client).1
          (record p {
            client = (client_destroy h c x p.client).0;
            server = (server_destroy h c x now p.server).0;
            place = finished;
          })
          (not_server main_thread refl)
          (record {
            answers = λ e. absurd (let both : false ≡ true = sym stopped ∙ e in cc both);
            no_line = q.no_line;
            no_failure = q.no_failure;
          }))

  client_round-IsQuiet :
      (p : Program) (now later : ℕ) (datagram : Option (Address × List ℕ))
      → IsQuiet p
      → IsQuiet (client_round h c x now later datagram p)
  unfolding client_round
  client_round-IsQuiet p now later datagram q =
      client_line-IsQuiet _ _
        (record { answers = q.answers; no_line = q.no_line; no_failure = q.no_failure })

module _ (h : Host) (c : Crypto) (x : KeyExchange) (sizes : KeySizes c x) where
  -- A round of the server's thread, for a server that answers.
  round_of :
      (p : Program) (now : ℕ) (datagram : Option (Address × List ℕ)) (s t : Server)
      → (r : Result ServerListen.Heard) → server_listen h c x now 0 datagram p.server ≡ (some t, r)
      → r ≡ ok nothing_heard
      → server_round h c x now datagram p ≡ record p { server = some t }
  unfolding server_round
  round_of p now datagram s t r e f = rw (e, f) refl

  server_round-IsQuiet :
      (p : Program) (now : ℕ) (datagram : Option (Address × List ℕ))
      → p.serving ≡ true
      → Fits datagram
      → IsQuiet h c x p
      → IsQuiet h c x (server_round h c x now datagram p)
  server_round-IsQuiet p now datagram running fits q =
      let (s, f, ready) = q.answers running in
      let t = (listen h c x now 0 datagram s).0 in
      rw
        (round_of p now datagram s t (listen h c x now 0 datagram s).1
          (ap (server_listen h c x now 0 datagram) f)
          (listen-survives h c x sizes now 0 datagram s fits ready.0 ready.1))
        (record {
          answers = λ e. (
            t,
            refl,
            listen-Keeps h c x now (IsReady x) (IsReady-Carries h c x now) 0 datagram s ready,
          );
          no_line = q.no_line;
          no_failure = q.no_failure;
        })

  Runs-IsQuiet : (p r : Program) → Runs h c x p r → IsQuiet h c x p → IsQuiet h c x r
  Runs-IsQuiet p _ (connects _ alive e) q = main_connects-IsQuiet h c x p q
  Runs-IsQuiet p _ (propagates _ now alive e) q = main_propagates-IsQuiet h c x p now q
  Runs-IsQuiet p _ (stops _ alive e) q = record {
    answers = q.answers;
    no_line = q.no_line;
    no_failure = q.no_failure;
  }
  Runs-IsQuiet p _ (destroys _ now alive e f stopped) q =
      main_destroys-IsQuiet h c x p now stopped q
  Runs-IsQuiet p _ (serves _ now datagram alive running fits) q =
      server_round-IsQuiet p now datagram running fits q
  Runs-IsQuiet p _ (stops_serving _ alive e) q = record {
    answers = λ f. absurd (cc f);
    no_line = q.no_line;
    no_failure = q.no_failure;
  }
  Runs-IsQuiet p _ (follows _ now later datagram alive running fits) q =
      client_round-IsQuiet h c x p now later datagram q
  Runs-IsQuiet p _ (stops_following _ alive e) q = record {
    answers = q.answers;
    no_line = q.no_line;
    no_failure = q.no_failure;
  }
  Runs-IsQuiet p _ (responds _ s n alive e f) q = record {
    answers = q.answers;
    no_line = q.no_line;
    no_failure = q.no_failure;
  }

  start-IsQuiet :
      (now : ℕ) (statics : Statics) (server_entropy client_entropy : ℕ)
      → Table.IsValid statics
      → IsQuiet h c x (start h c x now statics server_entropy client_entropy)
  start-IsQuiet now statics server_entropy client_entropy v = record {
    answers = λ e. (_, refl, new_server-IsReady h c x now statics server_entropy v);
    no_line = refl;
    no_failure = λ e. cc e;
  }

  Run-IsQuiet : (p r : Program) → Run h c x p r → IsQuiet h c x p → IsQuiet h c x r
  Run-IsQuiet p _ (no_step _) q = q
  Run-IsQuiet p r (one_more _ u _ run step) q = Runs-IsQuiet u r step (Run-IsQuiet p u run q)

  -- In every run of the program from its start, whatever order the threads' steps come in and
  -- whatever datagrams of at most 1024 bytes arrive, the server's thread prints nothing and does not
  -- end the process, by an exception or outside of its memory; and as long as the thread runs, there
  -- is a server.
  pub Run-quiet :
      (now : ℕ) (statics : Statics) (server_entropy client_entropy : ℕ) (p : Program)
      → Table.IsValid statics
      → Run h c x (start h c x now statics server_entropy client_entropy) p
      → (p.server_printed ≡ [])
        × (p.failed ≢ some server_thread)
        × (p.serving ≡ true → (s : Server) × (p.server ≡ some s))
  Run-quiet now statics server_entropy client_entropy p v run =
      let q = Run-IsQuiet _ p run (start-IsQuiet now statics server_entropy client_entropy v) in
      (q.no_line, q.no_failure, λ e. let (s, f, ready) = q.answers e in (s, f))
