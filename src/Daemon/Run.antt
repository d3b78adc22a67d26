-- ===== src/Daemon/Run.antt =====
-- The main loop (raspberrypi/irbrgd/main.c:336) over any run of the kernel's answers.
use irbridge.Base.{
  ℕ, ◌+◌, ◌≤◌, ◌≡◌, refl, ◌∙◌, Bool, Option, none, some, List, [], ◌∷◌, ◌++◌, map, Outcome, ok,
  Allocates, arith,
}
use irbridge.Daemon.{
  Polled, interrupted, failed, ready, Next, again, Relay, Daemon, round, close_relay, loop,
  close_all, main_loop,
}
use irbridge.Daemon.Watch.{watch_all-watched}
use irbridge.Server.{max_clients, closed, Server}
use irbridge.Server.Broadcast.{clear_clients-map}
use irbridge.Server.Connect.{end_connection}
use irbridge.Server.Contract.{Holds, Holds-events}
use irbridge.Daemon.Safety.{Works, accepts, Safe, Keeps, relay-Safe, weaken, round-Safe}
use irbridge.Starfrit.Floats.{Float}

abbrev pub AllWork : ℕ → List Polled → Type 0
AllWork fd [] = Unit
AllWork fd (interrupted ∷ ps) = AllWork fd ps
AllWork fd (failed errno ∷ ps) = AllWork fd ps
AllWork fd (ready r ∷ ps) = Works fd r × AllWork fd ps

-- How many clients are accepted in a run.
abbrev pub connections : List Polled → ℕ
connections [] = 0
connections (interrupted ∷ ps) = connections ps
connections (failed errno ∷ ps) = connections ps
connections (ready r ∷ ps) = accepts r + connections ps

-- What the loop returns: it ends where `select` fails.
abbrev pub status : List Polled → Option ℕ
status [] = none
status (interrupted ∷ ps) = some 0
status (failed errno ∷ ps) = some errno
status (ready r ∷ ps) = status ps

-- A round after which the loop goes on.
pub loop-again :
    {S : Type 0} (step : Polled → S → Outcome (Next × S)) (close : S → Outcome S) (p : Polled)
    (ps : List Polled) (σ σ' : S)
    → step p σ ≡ ok (again, σ')
    → loop step close (p ∷ ps) σ ≡ loop step close ps σ'
unfolding loop
loop-again step close p ps σ σ' e = rw e refl

module _ (fl : Float) (alloc : ℕ → List ℕ) (fresh : Allocates alloc) (time : ℕ → ℕ) where
  close_all-Safe :
      (starfrit : Bool) (sock n : ℕ) (d : Daemon fl)
      → Safe fl n d
      → Keeps fl n (close_all fl alloc time starfrit sock d)
  unfolding close_all close_relay end_connection
  close_all-Safe starfrit sock n d s =
      let σ : Server =
        end_connection sock
          (record d.relay.server { events = d.relay.server.events ++ map closed s.cs }) in
      let relay : Relay = record d.relay { server = σ } in
      let held : Holds s.cs σ = Holds-events σ.events s.holds in
      (
        record d { relay = relay },
        rw (clear_clients-map s.cs d.relay.server s.holds) refl,
        relay-Safe fl alloc fresh time n s.cs relay d s held n s.fewer,
      )

  pub main_loop-Safe :
      (starfrit : Bool) (fd sock n : ℕ) (ps : List Polled) (d : Daemon fl)
      → Safe fl n d
      → AllWork fd ps
      → connections ps + n ≤ max_clients
      → (after : Daemon fl) × (main_loop fl alloc time starfrit fd sock ps d
          ≡ ok (status ps, after))
        × Safe fl (connections ps + n) after
  unfolding main_loop loop round
  main_loop-Safe starfrit fd sock n [] d s w room =
      (d, refl, weaken fl alloc fresh time n (0 + n) d s (omega arith))
  main_loop-Safe starfrit fd sock n (interrupted ∷ ps) d s w room =
      let (after, ends, safe) = close_all-Safe starfrit sock n d s in
      (
        after,
        rw (watch_all-watched s.cs fd sock d.relay.server s.holds, ends) refl,
        weaken fl alloc fresh time n (connections ps + n) after safe (omega arith),
      )
  main_loop-Safe starfrit fd sock n (failed errno ∷ ps) d s w room = (
    d,
    rw (watch_all-watched s.cs fd sock d.relay.server s.holds) refl,
    weaken fl alloc fresh time n (connections ps + n) d s (omega arith),
  )
  main_loop-Safe starfrit fd sock n (ready r ∷ ps) d s w room =
      let (d', once, safe) =
        round-Safe fl alloc fresh time starfrit fd sock n r d s w.0 (omega arith) in
      let (after, ends, safe') =
        main_loop-Safe starfrit fd sock (accepts r + n) ps d' safe w.1 (omega arith) in
      (
        after,
        loop-again (round fl alloc time starfrit fd sock) (close_all fl alloc time starfrit sock)
              (ready r) ps d d' once
            ∙ ends,
        weaken fl alloc fresh time (connections ps + (accepts r + n))
            (accepts r + connections ps + n) after safe' (omega arith),
      )
