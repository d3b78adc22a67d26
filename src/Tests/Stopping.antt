-- ===== src/Tests/Stopping.antt =====
-- The daemon that has won the lock is stopped, and another starts.
use irbridge.Base.{◌++◌, ◌≡◌, refl, true, some, List, [], ◌∷◌, ok, codes, arith}
use irbridge.Daemon.{Ready, Daemon, main_loop}
use irbridge.Daemon.Start.{main, run_daemon, hang_up}
use irbridge.Processes.{World, Step, lock_of, sighup}
use irbridge.Processes.Stopping.{caught, answered, stop-start}
use irbridge.Tests.{alloc, alloc-fresh, tenths_float}
use irbridge.Tests.Racing.{digit, lock_file, nobody, won, race}
use irbridge.Tests.Running.{safe, set_up, knocking, knocking-Works, shining, shining-Works}

abbrev heard : List Ready
heard = knocking ∷ shining ∷ []

stop-start_example :
    (won.daemons ≡ 7 ∷ [])
    × (main (codes "stop" ∷ []) (lock_of won.lock) ≡ hang_up 7)
    × ((after : Daemon tenths_float) × (main_loop tenths_float alloc
            (λ n. n)
            true
            3
            4
            (answered heard ++ caught sighup)
            set_up
          ≡ ok (some 0, after)))
    × ((w' : World digit lock_file) × Step digit lock_file won w'
        × (w'.daemons ≡ [])
        × (main (codes "start" ∷ []) (lock_of w'.lock) ≡ run_daemon))
stop-start_example =
    stop-start digit lock_file tenths_float alloc (λ n. n) true 3 4 nobody won 7 0 heard set_up refl
      race refl (omega arith) alloc-fresh safe (knocking-Works, (shining-Works, tt)) (omega arith)
