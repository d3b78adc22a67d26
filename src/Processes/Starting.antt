-- ===== src/Processes/Starting.antt =====
-- `irbrgd start` (raspberrypi/irbrgd/main.c:236) from the reading of the configuration to the end of
-- the daemon.
use irbridge.Base.{ℕ, Bool, Option, none, some, List, Outcome, ok, ◌>>=◌, if◌then◌else◌}
use irbridge.Config.{Conf, default_conf, readconf}
use irbridge.Daemon.{Polled, Daemon}
use irbridge.Daemon.Main.{main_demonized}
use irbridge.Daemon.Start.{Lock, get_pid, is_running, Driver}
use irbridge.Led.{FileOp, set_led, unregister_led}
use irbridge.Processes.{Spawn, returns, exits, daemonize}
use irbridge.Server.Connect.{Calls}
use irbridge.Starfrit.Floats.{Float}
use irbridge.Starfrit.Setup.{starfrit_setup}

module _ (fl : Float) (alloc : ℕ → List ℕ) (time : ℕ → ℕ) (opens : List FileOp → List ℕ → Bool)
    (prints : List FileOp → List ℕ → Bool) (digits : ℕ → List ℕ) (atoi : List ℕ → ℕ)
    (strtok : List ℕ → List (List ℕ)) where
  -- `if (conf.starfrit) starfrit_setup(conf.led, conf.starfrit_args);`
  unfoldable pub configured : Conf → Daemon fl → Outcome (Daemon fl)
  configured conf d =
      if conf.starfrit
      then (starfrit_setup fl (strtok conf.starfrit_args) >>= λ clients.
          ok (record d { scale = record d.scale { clients = clients } }))
      else ok d

  -- What follows `main_demonized`.
  unfoldable pub put_out : Option ℕ → ℕ → List FileOp → List FileOp
  put_out none led ops = ops
  put_out (some ret) led ops =
      unregister_led opens prints digits led (set_led opens prints digits led 1 ops)

  -- The status of the process, if it ends, with the led's files and the state.
  unfoldable pub start_daemon :
      Lock
      → Option (List (List ℕ))
      → Spawn
      → Driver
      → Calls
      → List Polled
      → List FileOp
      → Daemon fl
      → Outcome (Option ℕ × List FileOp × Daemon fl)
  start_daemon lock file spawn driver calls polls ops d =
      if is_running (get_pid lock)
      then ok (some 1, ops, d)
      else readconf atoi file default_conf >>= λ conf. configured conf d >>= λ d'.
          daemonize digits spawn >>= λ fate. elim fate [
            | exits code ↦ ok (some code, ops, d')
            | returns text ↦
                main_demonized fl alloc time opens prints digits conf driver calls polls ops d'
                >>= λ e. ok (e.0, put_out e.0 e.1 e.2, e.3)
          ]
