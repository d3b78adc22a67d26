-- ===== src/Daemon/Main.antt =====
-- main_demonized (raspberrypi/irbrgd/main.c:286) as a whole: the led, the driver, the socket and the
-- main loop.
use irbridge.Base.{
  ℕ, ◌+◌, ◌≤◌, ◌<◌, ◌≡◌, refl, Bool, true, false, not, Option, none, some, List, Outcome, ok, fault,
  ◌>>=◌, Allocates, leb, ◌==◌, if◌then◌else◌, arith,
}
use irbridge.Config.{Conf}
use irbridge.Daemon.{Polled, Relay, Daemon, main_loop}
use irbridge.Daemon.Run.{AllWork, connections, status, main_loop-Safe}
use irbridge.Daemon.Safety.{Safe}
use irbridge.Daemon.Start.{Driver, check_driver, is_zero}
use irbridge.Led.{FileOp, register_led, blink_led}
use irbridge.Server.{max_clients, Server}
use irbridge.Server.Connect.{
  Calls, Connection, invalid_port, error, made, init_connection, init_connection-made, is_refused,
}
use irbridge.Starfrit.Floats.{Float}

-- The `int` that is kept as the socket, where it is above 0.
abbrev pub socket_of : Connection → ℕ
socket_of invalid_port = 0
socket_of (error errno) = errno
socket_of (made s) = s

-- The relay after `init_connection`.
abbrev pub opened : Connection × Server → Relay → Relay
opened r d = record d { server = r.1 }

module _ (fl : Float) (alloc : ℕ → List ℕ) (time : ℕ → ℕ) (opens : List FileOp → List ℕ → Bool)
    (prints : List FileOp → List ℕ → Bool) (digits : ℕ → List ℕ) where
  -- What is returned, if anything, with the led that is used, the writes to its files and the state. A descriptor of
  -- -1 does not fit the sets of the loop.
  unfoldable pub main_demonized :
      Conf
      → Driver
      → Calls
      → List Polled
      → List FileOp
      → Daemon fl
      → Outcome (Option ℕ × ℕ × List FileOp × Daemon fl)
  main_demonized conf driver calls polls ops d =
      let reg = register_led opens prints digits conf.led ops in
      let led = if reg.ret == 0 then conf.led else 0 in
      let r = init_connection conf.port calls d.relay.server in
      let d' : Daemon fl = record d { relay = opened r d.relay } in
      if is_zero driver.fd
      then ok (some 1, led, reg.ops, d)
      else if not (check_driver driver.stat driver.rec_mode)
      then ok (some 1, led, reg.ops, d)
      else if is_refused r.0
      then ok (some 1, led, reg.ops, d')
      else elim driver.fd [
        | none ↦ fault
        | some fd ↦ main_loop fl alloc time conf.starfrit fd (socket_of r.0) polls d' >>= λ e.
            ok (e.0, led, blink_led opens prints digits led reg.ops, e.1)
      ]

  -- Let `main_demonized` find a driver that passes its checks and get a socket above 0, with an
  -- allocator that gives blocks of the size asked for, a port from 1 to 65000, a table that holds
  -- `n` clients or fewer, a decoder that holds bits that fit, and a scale whose commands for all
  -- its clients fit `path` for every weight. Over any answers in which a driver that is ready gives
  -- whole words, less than 2 ^ 32 bytes of them, and in which at most 100 - n clients are accepted,
  -- it never faults. It returns 0 if `select` is interrupted, or the `errno` of the first other
  -- failure of `select`, whichever comes first, and waits as long as there is neither; the led
  -- blinks, and the state is safe in the same sense.
  pub main_demonized-status :
      (conf : Conf) (driver : Driver) (calls : Calls) (fd s n : ℕ) (ps : List Polled)
      (ops : List FileOp) (d : Daemon fl)
      → Allocates alloc
      → driver.fd ≡ some fd
      → 0 < fd
      → check_driver driver.stat driver.rec_mode ≡ true
      → 0 < conf.port
      → conf.port ≤ 65000
      → calls.socket ≡ some s
      → calls.bound ≡ true
      → calls.listening ≡ true
      → 0 < s
      → Safe fl n d
      → AllWork fd ps
      → connections ps + n ≤ max_clients
      → (after : Daemon fl) × (main_demonized conf driver calls ps ops d ≡ (
          let reg = register_led opens prints digits conf.led ops in
          let led = if reg.ret == 0 then conf.led else 0 in
          ok (status ps, led, blink_led opens prints digits led reg.ops, after)))
        × Safe fl (connections ps + n) after
  unfolding main_demonized is_refused
  main_demonized-status conf driver calls fd s n ps ops d fresh fd_is pos good low high made_s bound
        listening some_s safe works room =
      let (after, ends, safe') =
        main_loop-Safe fl alloc fresh time conf.starfrit fd s n ps d safe works room in
      let nonzero : (fd == 0) ≡ false = ground arith in
      let conn =
        init_connection-made conf.port s calls d.relay.server low high made_s bound listening in
      let above : leb s 0 ≡ false = ground arith in
      (after, rw (fd_is, nonzero, good, conn, above, ends) refl, safe')
