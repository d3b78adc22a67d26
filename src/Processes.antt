-- ===== src/Processes.antt =====
-- The processes of raspberrypi/irbrgd/main.c around the lock file: daemonize, the signal handler, and
-- what `irbrgd start` does up to them. The lock is the kernel's, an interface with its laws.
pub mod Exclusion
pub mod Starting
pub mod Stopping
use irbridge.Base.{
  ℕ, ◌+◌, ◌≡◌, ◌≢◌, Bool, true, false, not, Option, none, some, List, [], ◌∷◌, ◌++◌, Outcome, ok,
  fault, ◌>>=◌, length, codes, ltb, leb, ◌==◌, if◌then◌else◌,
}
use irbridge.Daemon.Start.{Lock, run_daemon, main}

-- `getppid() == 1`, what `fork` returns, whether `open` and `lockf` succeed, and `getpid()`.
pub record Spawn : Type 0 where
  pub orphan : Bool
  pub forked : Option ℕ
  pub opened : Bool
  pub locked : Bool
  pub pid : ℕ

-- How the call ends: it returns, with what has been written to the lock file, or the process exits.
pub data Fate : Type 0 where
  returns : List ℕ → Fate
  exits : ℕ → Fate

-- `char str[10]`
abbrev pub str_size : ℕ
str_size = 10

module _ (digits : ℕ → List ℕ) where
  -- `sprintf(str, "%d\n", getpid()); write(lfp, str, strlen(str));`
  unfoldable pub record_pid : ℕ → Outcome (List ℕ)
  record_pid pid =
      let text = digits pid ++ codes "\n" in if ltb (length text) str_size then ok text else fault

  -- `fork` returns 0 in the child.
  unfoldable pub daemonize : Spawn → Outcome Fate
  daemonize s = if s.orphan then ok (returns []) else elim s.forked [
    | none ↦ ok (exits 1)
    | some child ↦
        if ltb 0 child
        then ok (exits 0)
        else if not s.opened
        then ok (exits 1)
        else if not s.locked
        then ok (exits 0)
        else (record_pid s.pid >>= λ text. ok (returns text))
  ]

abbrev pub sighup : ℕ
sighup = 1

abbrev pub sigterm : ℕ
sigterm = 15

-- The status with which the handler ends the process, if it does. After a hangup `select` fails with
-- `EINTR`, and the main loop is left.
unfoldable pub signal_handler : ℕ → Option ℕ
signal_handler sig = if sig == sighup then none else if sig == sigterm then some 0 else none

-- An advisory lock on a file, and the processes that hold it: `F_GETLK`, `lockf(F_TLOCK)`, and the end
-- of a process.
pub record LockFile : Type 1 where
  pub L : Type 0
  pub holder : L → Option ℕ
  pub acquire : ℕ → L → Bool × L
  pub release : ℕ → L → L
  pub acquire-free :
      (p : ℕ) (l : L)
      → holder l ≡ none
      → ((acquire p l).0 ≡ true) × (holder (acquire p l).1 ≡ some p)
  pub acquire-held :
      (p q : ℕ) (l : L)
      → holder l ≡ some q
      → p ≢ q
      → ((acquire p l).0 ≡ false) × (holder (acquire p l).1 ≡ some q)
  pub release-held : (p : ℕ) (l : L) → holder l ≡ some p → holder (release p l) ≡ none
  pub release-other : (p q : ℕ) (l : L) → holder l ≡ some q → p ≢ q → holder (release p l) ≡ some q
  pub release-free : (p : ℕ) (l : L) → holder l ≡ none → holder (release p l) ≡ none

-- What `getPID` finds, where the file is there.
abbrev pub lock_of : Option ℕ → Lock
lock_of none = record { opened = true; queried = true; unlocked = true; holder = 0 }
lock_of (some p) = record { opened = true; queried = true; unlocked = false; holder = p }

-- The child's call of `daemonize`.
abbrev pub child_of : ℕ → Bool → Spawn
child_of pid locked = record {
  orphan = false;
  forked = some 0;
  opened = true;
  locked = locked;
  pid = pid;
}

-- The list without a process.
unfoldable pub without : ℕ → List ℕ → List ℕ
without p [] = []
without p (q ∷ qs) = let rest = without p qs in if q == p then rest else q ∷ rest

module _ (digits : ℕ → List ℕ) (file : LockFile) where
  open file use {L}

  -- The lock, the children that have been forked after `getPID` found no daemon, and the daemons, by
  -- their process ids.
  pub record World : Type 0 where
    pub lock : L
    pub children : List ℕ
    pub daemons : List ℕ

  -- A step of one process. Nothing hinders two processes from asking `getPID` before either has the
  -- lock.
  pub data Step : World → World → Type 0 where
    -- `start` has found no daemon and forks the child `p`.
    fork_child :
        (w : World) (p : ℕ)
        → main (codes "start" ∷ []) (lock_of (file.holder w.lock)) ≡ run_daemon
        → Step w (record w { children = p ∷ w.children })
    -- The child `p` returns from `daemonize`.
    become_daemon :
        (w : World) (p : ℕ) (text : List ℕ)
        → without p w.children ≢ w.children
        → without p w.daemons ≡ w.daemons
        → daemonize digits (child_of p (file.acquire p w.lock).0) ≡ ok (returns text)
        → Step w (record {
          lock = (file.acquire p w.lock).1;
          children = without p w.children;
          daemons = p ∷ w.daemons;
        })
    -- The child `p` exits in `daemonize`.
    give_up_lock :
        (w : World) (p status : ℕ)
        → without p w.children ≢ w.children
        → without p w.daemons ≡ w.daemons
        → daemonize digits (child_of p (file.acquire p w.lock).0) ≡ ok (exits status)
        → Step w (record w {
          lock = file.release p (file.acquire p w.lock).1;
          children = without p w.children;
        })
    -- A daemon ends.
    end_daemon :
        (w : World) (p : ℕ)
        → without p w.daemons ≢ w.daemons
        → Step w (record w { lock = file.release p w.lock; daemons = without p w.daemons })

  pub data Run : World → World → Type 0 where
    no_step : (w : World) → Run w w
    then_step : {u v w : World} → Run u v → Step v w → Run u w
