-- ===== src/Processes/Stopping.antt =====
-- `irbrgd stop` (raspberrypi/irbrgd/main.c:256): the signal reaches the daemon, which leaves its loop
-- (main.c:133, main.c:361), and gives the lock back.
use irbridge.Base.{
  ℕ, ◌+◌, ◌≤◌, ◌≡◌, refl, ap, ◌∙◌, Bool, true, none, some, List, [], ◌∷◌, ◌++◌, map, ok, Allocates,
  codes, leb, ==_refl, arith,
}
use irbridge.Daemon.{Ready, Polled, interrupted, ready, Daemon, main_loop}
use irbridge.Daemon.Run.{AllWork, connections, status, main_loop-Safe}
use irbridge.Daemon.Safety.{Safe, Works, accepts}
use irbridge.Daemon.Start.{main, get_pid, run_daemon, hang_up}
use irbridge.Processes.{
  signal_handler, sighup, LockFile, lock_of, without, World, Step, end_daemon, Run,
}
use irbridge.Processes.Exclusion.{list_of, one_daemon}
use irbridge.Server.{max_clients}
use irbridge.Starfrit.Floats.{Float}

-- What `select` returns if a signal comes while it waits: the handler either returns, and the call
-- fails with `EINTR`, or ends the process.
unfoldable pub caught : ℕ → List Polled
caught sig = elim (signal_handler sig) [ none ↦ interrupted ∷ [] | some code ↦ [] ]

abbrev pub answered : List Ready → List Polled
answered rs = map ready rs

abbrev pub EachWorks : ℕ → List Ready → Type 0
EachWorks fd [] = Unit
EachWorks fd (r ∷ rs) = Works fd r × EachWorks fd rs

-- How many clients are accepted.
abbrev pub accepted_in : List Ready → ℕ
accepted_in [] = 0
accepted_in (r ∷ rs) = accepts r + accepted_in rs

caught_works :
    (fd : ℕ) (rs : List Ready) → EachWorks fd rs → AllWork fd (answered rs ++ (interrupted ∷ []))
caught_works fd [] w = tt
caught_works fd (r ∷ rs) w = (w.0, caught_works fd rs w.1)

connections_caught :
    (rs : List Ready) → connections (answered rs ++ (interrupted ∷ [])) ≡ accepted_in rs
connections_caught [] = refl
connections_caught (r ∷ rs) = ap (λ n. accepts r + n) (connections_caught rs)

status_caught : (rs : List Ready) → status (answered rs ++ (interrupted ∷ [])) ≡ some 0
status_caught [] = refl
status_caught (r ∷ rs) = status_caught rs

caught-sighup : caught sighup ≡ interrupted ∷ []
unfolding caught signal_handler
caught-sighup = refl

stop_held : (p : ℕ) → 1 ≤ p → main (codes "stop" ∷ []) (lock_of (some p)) ≡ hang_up p
unfolding main get_pid
stop_held p pos = let runs : leb 1 p ≡ true = ground arith in rw runs refl

start_free : main (codes "start" ∷ []) (lock_of none) ≡ run_daemon
unfolding main get_pid
start_free = refl

module _ (fl : Float) (alloc : ℕ → List ℕ) (time : ℕ → ℕ) (starfrit : Bool) (fd sock : ℕ) where
  -- A hangup, after any answers of a kernel that works.
  pub main_loop-caught :
      (n : ℕ) (rs : List Ready) (d : Daemon fl)
      → Allocates alloc
      → Safe fl n d
      → EachWorks fd rs
      → accepted_in rs + n ≤ max_clients
      → (after : Daemon fl) × (main_loop fl alloc time starfrit fd sock
            (answered rs ++ caught sighup)
            d
          ≡ ok (some 0, after))
  main_loop-caught n rs d fresh s w room =
      let (after, ends, safe) =
        main_loop-Safe fl alloc fresh time starfrit fd sock n (answered rs ++ (interrupted ∷ [])) d
          s (caught_works fd rs w) (omega (arith, connections_caught rs)) in
      (
        after,
        ap (λ l. main_loop fl alloc time starfrit fd sock (answered rs ++ l) d) caught-sighup
            ∙ ends
            ∙ ap (λ x. ok (x, after)) (status_caught rs),
      )

module _ (digits : ℕ → List ℕ) (file : LockFile) where
  -- The daemon that holds the lock ends.
  ended :
      (w : World digits file) (p : ℕ)
      → w.daemons ≡ p ∷ []
      → file.holder w.lock ≡ some p
      → (w' : World digits file) × Step digits file w w'
        × (w'.daemons ≡ [])
        × (file.holder w'.lock ≡ none)
  unfolding without
  ended w p alone held =
      let own : without p (p ∷ []) ≡ [] = rw (==_refl p) refl in
      let gone : without p w.daemons ≡ [] = ap (without p) alone ∙ own in
      (
        record w { lock = file.release p w.lock; daemons = without p w.daemons },
        end_daemon w p (λ same. cc (gone, same, alone)),
        gone,
        file.release-held p w.lock held,
      )

  module _ (fl : Float) (alloc : ℕ → List ℕ) (time : ℕ → ℕ) (starfrit : Bool) (fd sock : ℕ) where
    -- Let processes, none of them started by init, have started and ended the daemon in any order
    -- of their steps, from a state in which the daemons are just the process that holds the lock
    -- file, for any lock that keeps to its laws; and let process `p`, above 0, hold the lock now.
    -- Then `p` is the only daemon, and `stop` sends its signal to `p`. If the state of that
    -- daemon's loop is safe, with at most `n` clients, and blocks have the size asked for, then
    -- after any answers of a kernel that works, with at most 100 - n clients accepted, the signal
    -- makes its loop end with 0 if it comes while `select` waits. Once `p` has ended there is no
    -- daemon, and `start` runs one again.
    pub stop-start :
        (v w : World digits file) (p n : ℕ) (rs : List Ready) (d : Daemon fl)
        → v.daemons ≡ list_of (file.holder v.lock)
        → Run digits file v w
        → file.holder w.lock ≡ some p
        → 1 ≤ p
        → Allocates alloc
        → Safe fl n d
        → EachWorks fd rs
        → accepted_in rs + n ≤ max_clients
        → (w.daemons ≡ p ∷ [])
          × (main (codes "stop" ∷ []) (lock_of (file.holder w.lock)) ≡ hang_up p)
          × ((after : Daemon fl) × (main_loop fl alloc time starfrit fd sock
                  (answered rs ++ caught sighup)
                  d
                ≡ ok (some 0, after)))
          × ((w' : World digits file) × Step digits file w w'
              × (w'.daemons ≡ [])
              × (main (codes "start" ∷ []) (lock_of (file.holder w'.lock)) ≡ run_daemon))
    stop-start v w p n rs d i r held pos fresh s works room =
        let alone : w.daemons ≡ p ∷ [] = (one_daemon digits file v w i r).1 ∙ ap list_of held in
        let (w', step, gone, free) = ended w p alone held in
        (
          alone,
          rw held (stop_held p pos),
          main_loop-caught fl alloc time starfrit fd sock n rs d fresh s works room,
          (w', step, gone, rw free start_free),
        )
