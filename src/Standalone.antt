-- ===== src/Standalone.antt =====
-- raspberrypi/server: the server that the daemon has grown out of. It runs in a terminal, without the
-- scale, and a key ends it. Its server.c is that of raspberrypi/irbrgd with other messages (Table).
pub mod Agreement
pub mod Table
pub mod Relaying
use irbridge.Base.{
  ℕ, zero, suc, ◌||◌, Bool, true, false, not, Option, none, some, List, [], ◌∷◌, Outcome, ok, fault,
  ◌>>=◌, ◌==◌, if◌then◌else◌,
}
use irbridge.Daemon.{
  Polled, interrupted, failed, ready, Next, again, leave, give_up, Watched, nothing, watch,
  watch_clients, Relay, pass_on, connect, serve, close_relay, loop,
}
use irbridge.Daemon.Main.{socket_of, opened}
use irbridge.Daemon.Start.{Driver, check_driver, is_zero}
use irbridge.Server.{Server}
use irbridge.Server.Connect.{Calls, init_connection, is_refused}

-- `STDIN_FILENO`
abbrev pub stdin : ℕ
stdin = 0

-- `EINTR`, which the daemon tells from the other errors, and this server does not.
abbrev pub eintr : ℕ
eintr = 4

unfoldable pub watch_terminal : ℕ → ℕ → Server → Outcome Watched
watch_terminal fd sock σ = watch_clients σ.count 0 σ (watch sock (watch fd (watch stdin nothing)))

-- What `read` on the driver returns goes to the clients; an error is passed over.
unfoldable pub relay_driver : Option (List ℕ) → Relay → Outcome Relay
relay_driver none d = ok d
relay_driver (some bytes) d = pass_on bytes d

-- A round of `while (1)`; to give up is to exit with `errno`.
unfoldable pub terminal_round : ℕ → ℕ → Polled → Relay → Outcome (Next × Relay)
terminal_round fd sock polled d = watch_terminal fd sock d.server >>= λ w. elim polled [
  | interrupted ↦ ok (give_up eintr, d)
  | failed errno ↦ ok (give_up errno, d)
  | ready r ↦
      if r.is_ready stdin
      then ok (leave, d)
      else if r.is_ready fd
      then (relay_driver r.ir d >>= λ d'. ok (again, d'))
      else if r.is_ready sock
      then (connect r.accepted d >>= λ d'. ok (again, d'))
      else (serve r w.fds d.server.count 0 d >>= λ d'. ok (again, d'))
]

module _ (atoi : List ℕ → ℕ) where
  -- `main`, by the arguments behind the program's name: the status, if it ends, and the state.
  unfoldable pub server_main :
      List (List ℕ) → Driver → Calls → List Polled → Relay → Outcome (Option ℕ × Relay)
  server_main [] driver calls polls d = ok (some 1, d)
  server_main (a ∷ b ∷ rest) driver calls polls d = ok (some 1, d)
  server_main (a ∷ []) driver calls polls d =
      let r = init_connection (atoi a) calls d.server in
      let sock = socket_of r.0 in
      if is_zero driver.fd
      then ok (some 1, d)
      else if not (check_driver driver.stat driver.rec_mode)
      then ok (some 1, d)
      else if is_refused r.0
      then ok (some 1, opened r d)
      else elim driver.fd [
        | none ↦ fault
        | some fd ↦ loop (terminal_round fd sock) (close_relay sock) polls (opened r d)
      ]
