-- ===== src/Standalone/Relaying.antt =====
-- The loop of raspberrypi/server/main.c against the hub: it is a hub of its own that a key ends.
use irbridge.Base.{
  ℕ, ◌+◌, ◌≤◌, ◌<◌, ◌==◌, leb, ◌≡◌, refl, ap, ◌∙◌, true, false, inl, inr, Bool-cases, Option, none,
  some, List, [], ◌∷◌, ◌++◌, map, ok, length, if◌then◌else◌, arith,
}
use irbridge.Daemon.{
  Ready, Polled, interrupted, failed, ready, again, Relay, nothing, watch, close_relay, loop,
}
use irbridge.Daemon.Hub.{Hub, turn, broadcast, hub_round, Distinct, IsNew, Shows}
use irbridge.Daemon.Hub.Clients.{
  broadcast-clients, Distinct-pos, Distinct-round, length-turn, length-take_in,
}
use irbridge.Daemon.Hub.Round.{pass_on-Shows, connect-Shows, close_relay-Shows}
use irbridge.Daemon.Hub.Serving.{serve-Turned}
use irbridge.Daemon.Run.{connections, loop-again}
use irbridge.Daemon.Safety.{accepts}
use irbridge.Daemon.Watch.{watch_each, watch_each-clients}
use irbridge.Server.{max_clients, closed}
use irbridge.Daemon.Start.{Driver, check_driver}
use irbridge.Server.Connect.{Calls, init_connection-made, is_refused}
use irbridge.Standalone.{stdin, eintr, relay_driver, terminal_round, server_main}
use irbridge.Standalone.Agreement.{watch_terminal-each}

-- All that happens until the loop is left; a key closes all clients and the connection socket.
abbrev pub hub_until_key : ℕ → ℕ → List Polled → Hub → Hub
hub_until_key fd sock [] h = h
hub_until_key fd sock (interrupted ∷ ps) h = h
hub_until_key fd sock (failed errno ∷ ps) h = h
hub_until_key fd sock (ready r ∷ ps) h =
    let rest = hub_until_key fd sock ps (hub_round fd sock r h) in
    if r.is_ready stdin
    then record h { asked = (h.asked ++ map closed h.clients) ++ (closed sock ∷ []) }
    else rest

-- The status with which the program ends: 0 by a key, or the `errno` of `select`.
abbrev pub status_by_key : List Polled → Option ℕ
status_by_key [] = none
status_by_key (interrupted ∷ ps) = some eintr
status_by_key (failed errno ∷ ps) = some errno
status_by_key (ready r ∷ ps) =
    let rest = status_by_key ps in if r.is_ready stdin then some 0 else rest

-- The new clients' sockets are above 0 and of no other client.
abbrev pub NewUntilKey : ℕ → ℕ → List Polled → Hub → Type 0
NewUntilKey fd sock [] h = Unit
NewUntilKey fd sock (interrupted ∷ ps) h = Unit
NewUntilKey fd sock (failed errno ∷ ps) h = Unit
NewUntilKey fd sock (ready r ∷ ps) h =
    IsNew r.accepted h.clients × NewUntilKey fd sock ps (hub_round fd sock r h)

relay_driver-Shows :
    (ir : Option (List ℕ)) (h : Hub) (d : Relay)
    → Shows h d
    → (relay : Relay) × (relay_driver ir d ≡ ok relay)
      × Shows (elim ir [ none ↦ h | some bytes ↦ broadcast bytes h ]) relay
unfolding relay_driver
relay_driver-Shows none h d s = (d, refl, s)
relay_driver-Shows (some bytes) h d s =
    let (relay, ends, buffer, s') = pass_on-Shows bytes h d s in (relay, ends, s')

module _ (fd sock : ℕ) where
  terminal_round-Shows :
      (r : Ready) (h : Hub) (d : Relay)
      → Shows h d
      → Distinct h.clients
      → r.is_ready stdin ≡ false
      → accepts r + length h.clients ≤ max_clients
      → (after : Relay) × (terminal_round fd sock (ready r) d ≡ ok (again, after))
        × Shows (hub_round fd sock r h) after
  unfolding terminal_round
  terminal_round-Shows r h d s apart quiet room =
      let w = watch sock (watch fd (watch stdin nothing)) in
      let watching = watch_terminal-each h.clients fd sock d.server s.holds in
      elim (Bool-cases (r.is_ready fd)) [
        | inl on ↦
            let (relay, ends, s') = relay_driver-Shows r.ir h d s in
            (relay, rw (watching, quiet, on, ends) refl, rw on s')
        | inr off ↦ elim (Bool-cases (r.is_ready sock)) [
          | inl new ↦
              let (relay, ends, s') = connect-Shows r.accepted h d s room in
              (relay, rw (watching, quiet, off, new, ends) refl, rw (off, new) s')
          | inr old ↦
              let t =
                serve-Turned r (watch_each h.clients w).fds [] h.clients d.server.count 0 d s.holds
                  refl (omega (arith, s.holds.counted)) apart
                  (λ x m. watch_each-clients x h.clients w (Distinct-pos x h.clients apart m) m) in
              (
                t.after,
                rw (watching, quiet, off, old, t.returns) refl,
                rw (off, old)
                    (record {
                      holds = t.holds;
                      asked = t.asked ∙ ap (λ l. l ++ map closed (turn r h.clients).ended) s.asked;
                      driver = t.driver ∙ ap (λ l. l ++ (turn r h.clients).message) s.driver;
                    }),
              )
        ]
      ]

  length-round :
      (r : Ready) (h : Hub) → length (hub_round fd sock r h).clients ≤ accepts r + length h.clients
  length-round r h = elim (Bool-cases (r.is_ready fd)) [
    | inl on ↦ rw on (from_ir r.ir)
    | inr off ↦ elim (Bool-cases (r.is_ready sock)) [
      | inl new ↦ rw (off, new) (length-take_in r.accepted h (length h.clients) (omega arith))
      | inr old ↦ rw (off, old) (omega (arith, length-turn r h.clients))
    ]
  ]
    where
      from_ir :
          (ir : Option (List ℕ))
          → length (elim ir as (λ _. Hub) [ none ↦ h | some bytes ↦ broadcast bytes h ]).clients
            ≤ accepts r + length h.clients
      from_ir none = omega arith
      from_ir (some bytes) = omega (arith, ap length (broadcast-clients bytes h))

  pub terminal_loop-hub_until_key :
      (ps : List Polled) (h : Hub) (d : Relay)
      → Shows h d
      → Distinct h.clients
      → NewUntilKey fd sock ps h
      → connections ps + length h.clients ≤ max_clients
      → (after : Relay) × (loop (terminal_round fd sock) (close_relay sock) ps d
          ≡ ok (status_by_key ps, after))
        × Shows (hub_until_key fd sock ps h) after
  unfolding loop terminal_round
  terminal_loop-hub_until_key [] h d s apart new room = (d, refl, s)
  terminal_loop-hub_until_key (interrupted ∷ ps) h d s apart new room =
      (d, rw (watch_terminal-each h.clients fd sock d.server s.holds) refl, s)
  terminal_loop-hub_until_key (failed errno ∷ ps) h d s apart new room =
      (d, rw (watch_terminal-each h.clients fd sock d.server s.holds) refl, s)
  terminal_loop-hub_until_key (ready r ∷ ps) h d s apart new room =
      elim (Bool-cases (r.is_ready stdin)) [
        | inl key ↦
            let (after, ends, s') = close_relay-Shows sock h d s in
            (
              after,
              rw (watch_terminal-each h.clients fd sock d.server s.holds, key, ends) refl,
              rw key s',
            )
        | inr quiet ↦
            let (d', once, s') = terminal_round-Shows r h d s apart quiet (omega arith) in
            let (after, ends, s'') =
              terminal_loop-hub_until_key ps (hub_round fd sock r h) d' s'
                (Distinct-round fd sock r h apart new.0) new.1 (omega (arith, length-round r h)) in
            (
              after,
              loop-again (terminal_round fd sock) (close_relay sock) (ready r) ps d d' once
                  ∙ rw quiet ends,
              rw quiet s'',
            )
      ]

module _ (atoi : List ℕ → ℕ) where
  -- raspberrypi/server, from the start to the end, does what the daemon's hub does until a key is
  -- pressed. Let the port be from 1 to 65000, let the driver pass its checks and the connection
  -- socket be made, both above 0, and let the state show a hub whose clients are all different and
  -- above 0. Over any answers of the kernel in which no more clients are accepted than the table
  -- has room for, and each new socket is above 0 and no other client's, `main` never faults. It
  -- returns 0 if a key is pressed, or exits with the `errno` of a failure of `select`, whichever
  -- comes first, and waits as long as there is neither; its table, its requests and its writes to
  -- the driver are those of the hub. After a key, all clients and the connection socket are closed.
  pub server_main-hub_until_key :
      (port : List ℕ) (driver : Driver) (calls : Calls) (fd s : ℕ) (ps : List Polled) (h : Hub)
      (d : Relay)
      → 0 < atoi port
      → atoi port ≤ 65000
      → driver.fd ≡ some fd
      → 0 < fd
      → check_driver driver.stat driver.rec_mode ≡ true
      → calls.socket ≡ some s
      → calls.bound ≡ true
      → calls.listening ≡ true
      → 0 < s
      → Shows h d
      → Distinct h.clients
      → NewUntilKey fd s ps h
      → connections ps + length h.clients ≤ max_clients
      → (after : Relay) × (server_main atoi (port ∷ []) driver calls ps d
          ≡ ok (status_by_key ps, after))
        × Shows (hub_until_key fd s ps h) after
  unfolding server_main is_refused
  server_main-hub_until_key port driver calls fd s ps h d low high fd_is pos good made_s bound
        listening some_s shows apart new room =
      let (after, ends, shows') = terminal_loop-hub_until_key fd s ps h d shows apart new room in
      let nonzero : (fd == 0) ≡ false = ground arith in
      let above : leb s 0 ≡ false = ground arith in
      let conn =
        init_connection-made (atoi port) s calls d.server low high made_s bound listening in
      (after, rw (fd_is, nonzero, good, conn, above, ends) refl, shows')
