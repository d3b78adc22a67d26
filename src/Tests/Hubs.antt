-- ===== src/Tests/Hubs.antt =====
-- A run of the daemon and of the hub.
use irbridge.Base.{◌≡◌, refl, true, none, List, codes, ◌==◌, [], ◌∷◌, ok, arith}
use irbridge.Daemon.{Ready, Polled, ready, Relay, Daemon, main_loop}
use irbridge.Daemon.Start.{check_driver, check_mode}
use irbridge.Standalone.{server_main}
use irbridge.Standalone.Relaying.{
  hub_until_key, status_by_key, NewUntilKey, server_main-hub_until_key,
}
use irbridge.Daemon.Hub.{Hub, hub_run, AllNew, Shows}
use irbridge.Daemon.Hub.Run.{main_loop-hub_run}
use irbridge.Daemon.Run.{status}
use irbridge.Daemon.Safety.{Safe}
use irbridge.Server.{read_client}
use irbridge.Tests.{alloc, alloc-fresh, tenths_float}
use irbridge.Tests.Relaying.{two, two-Holds}
use irbridge.Tests.Running.{listener-Fitting, shining, shining-Works, driver, calls}
use irbridge.Tests.Streaming.{served, polled, leaving, coming, leaving-Works, coming-Works}

abbrev hub : Hub
hub = record { clients = two; asked = []; driver = [] }

hub-Shows : Shows hub served.relay
hub-Shows = record { holds = two-Holds; asked = refl; driver = refl }

served-Safe : Safe tenths_float 2 served
served-Safe = record {
  cs = two;
  bits = [];
  holds = two-Holds;
  fewer = omega arith;
  decoder_is = refl;
  fits = omega arith;
  chars = tt;
  fitting = listener-Fitting;
}

-- 7 leaves, and 8 comes.
hub_run_lem : (hub_run 3 4 polled hub).clients ≡ 6 ∷ 8 ∷ []
unfolding read_client
hub_run_lem = refl

polled-AllNew : AllNew 3 4 polled hub
unfolding read_client
polled-AllNew = (tt, (tt, ((omega arith, refl), (tt, tt))))

main_loop-hub_run_example :
    (after : Daemon tenths_float) × (main_loop tenths_float alloc (λ n. n) true 3 4 polled served
      ≡ ok (status polled, after))
    × Shows (hub_run 3 4 polled hub) after.relay
main_loop-hub_run_example =
    main_loop-hub_run tenths_float alloc (λ n. n) true 3 4 2 polled hub served alloc-fresh
      served-Safe (shining-Works, (leaving-Works, (coming-Works, (shining-Works, tt))))
      (omega arith) hub-Shows (omega arith) polled-AllNew

-- Somebody presses a key.
abbrev pressing : Ready
pressing = record { is_ready = λ x. x == 0; ir = none; accepted = none; received = λ s. none }

abbrev until_key : List Polled
until_key = ready shining ∷ ready leaving ∷ ready coming ∷ ready pressing ∷ []

until_key-NewUntilKey : NewUntilKey 3 4 until_key hub
unfolding read_client
until_key-NewUntilKey = (tt, (tt, ((omega arith, refl), (tt, tt))))

driver_checked : check_driver driver.stat driver.rec_mode ≡ true
unfolding check_driver check_mode
driver_checked = refl

server_main-hub_until_key_example :
    (after : Relay) × (server_main
        (λ text. 8000)
        (codes "8000" ∷ [])
        driver
        calls
        until_key
        served.relay
      ≡ ok (status_by_key until_key, after))
    × Shows (hub_until_key 3 4 until_key hub) after
server_main-hub_until_key_example =
    server_main-hub_until_key (λ text. 8000) (codes "8000") driver calls 3 4 until_key hub
      served.relay (omega arith) (omega arith) refl (omega arith) driver_checked refl refl refl
      (omega arith) hub-Shows (omega arith) until_key-NewUntilKey (omega arith)
