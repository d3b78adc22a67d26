-- ===== src/Daemon/Hub/Run.antt =====
-- The main loop (raspberrypi/irbrgd/main.c:336) against the hub, over all rounds and what follows them.
use irbridge.Base.{ℕ, ◌+◌, ◌≤◌, ◌≡◌, refl, ◌∙◌, Bool, List, [], ◌∷◌, ok, Allocates, arith}
use irbridge.Daemon.{Polled, interrupted, failed, ready, Daemon, round, loop, close_all, main_loop}
use irbridge.Daemon.Hub.{Hub, hub_round, hub_run, Distinct, AllNew, Shows}
use irbridge.Daemon.Hub.Clients.{Distinct-round}
use irbridge.Daemon.Hub.Round.{close_relay-Shows, round-Shows}
use irbridge.Daemon.Run.{AllWork, connections, status, loop-again}
use irbridge.Daemon.Safety.{accepts, Safe}
use irbridge.Daemon.Watch.{watch_all-watched}
use irbridge.Server.{max_clients}
use irbridge.Starfrit.Floats.{Float}

module _ (fl : Float) (alloc : ℕ → List ℕ) (time : ℕ → ℕ) (starfrit : Bool) (fd sock : ℕ) where
  close_all-Shows :
      (h : Hub) (d : Daemon fl)
      → Shows h d.relay
      → (after : Daemon fl) × (close_all fl alloc time starfrit sock d ≡ ok after)
        × Shows (hub_run fd sock (interrupted ∷ []) h) after.relay
  unfolding close_all
  close_all-Shows h d s =
      let (relay, ends, s') = close_relay-Shows sock h d.relay s in
      (record d { relay = relay }, rw ends refl, s')

  -- The main loop does what a hub does. Let the daemon's state be safe, with at most `n` clients,
  -- and show a hub `h`: the table holds the hub's clients, all different and above 0, and the same
  -- has been asked of the kernel and written to the driver. Blocks have the size asked for. Over
  -- answers of the kernel in which a driver that is ready gives whole words, less than 2 ^ 32 bytes
  -- of them, at most 100 - n clients are accepted, and each new socket is above 0 and no other
  -- client's, the main loop never faults, with the scale on or off, and its table, its requests and
  -- its writes to the driver are again those of the hub. In a round of the hub the driver's bytes
  -- go to every client; if the driver is not ready, a new client joins; if there is none, the
  -- clients are asked in order until one has sent something, which goes to the driver, where each
  -- that has ended leaves and the one behind it is passed over. Where `select` is interrupted, all
  -- clients and the connection socket are closed.
  pub main_loop-hub_run :
      (n : ℕ) (ps : List Polled) (h : Hub) (d : Daemon fl)
      → Allocates alloc
      → Safe fl n d
      → AllWork fd ps
      → connections ps + n ≤ max_clients
      → Shows h d.relay
      → Distinct h.clients
      → AllNew fd sock ps h
      → (after : Daemon fl) × (main_loop fl alloc time starfrit fd sock ps d
          ≡ ok (status ps, after))
        × Shows (hub_run fd sock ps h) after.relay
  unfolding main_loop loop round
  main_loop-hub_run n [] h d fresh safe w room s apart new = (d, refl, s)
  main_loop-hub_run n (interrupted ∷ ps) h d fresh safe w room s apart new =
      let (after, ends, s') = close_all-Shows h d s in
      (after, rw (watch_all-watched h.clients fd sock d.relay.server s.holds, ends) refl, s')
  main_loop-hub_run n (failed errno ∷ ps) h d fresh safe w room s apart new =
      (d, rw (watch_all-watched h.clients fd sock d.relay.server s.holds) refl, s)
  main_loop-hub_run n (ready r ∷ ps) h d fresh safe w room s apart new =
      let (d', once, safe', s') =
        round-Shows fl alloc fresh time starfrit fd sock n r h d safe w.0 (omega arith) s apart in
      let (after, ends, s'') =
        main_loop-hub_run (accepts r + n) ps (hub_round fd sock r h) d' fresh safe' w.1
          (omega arith) s' (Distinct-round fd sock r h apart new.0) new.1 in
      (
        after,
        loop-again (round fl alloc time starfrit fd sock) (close_all fl alloc time starfrit sock)
              (ready r) ps d d' once
            ∙ ends,
        s'',
      )
