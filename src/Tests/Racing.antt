-- ===== src/Tests/Racing.antt =====
-- Two processes that start the daemon at the same time, and the Linux client.
use irbridge.Base.{
  ℕ, ◌+◌, ◌≤◌, ◌≡◌, ◌≢◌, refl, inl, inr, Bool, true, false, Bool-cases, ==-eq, ==_refl, Option,
  none, some, List, [], ◌∷◌, length, replicate, codes, ◌==◌, if◌then◌else◌, arith,
}
use irbridge.Console.{Console, last_key, read_server}
use irbridge.Console.Watching.{Stays}
use irbridge.Console.Session.{Link, Session}
use irbridge.Daemon.{Ready}
use irbridge.Daemon.Start.{main, get_pid}
use irbridge.Daemon.Words.{bytes_of}
use irbridge.Decoder.Protocol.{buf_of}
use irbridge.Processes.{
  record_pid, daemonize, LockFile, without, World, fork_child, become_daemon, give_up_lock, Run,
  no_step, then_step,
}
use irbridge.Processes.Exclusion.{list_of, one_daemon}

-- A lock as the process that holds it.
abbrev pub try_lock : ℕ → Option ℕ → Bool × Option ℕ
try_lock p none = (true, some p)
try_lock p (some q) = (q == p, some q)

abbrev pub unlock : ℕ → Option ℕ → Option ℕ
unlock p none = none
unlock p (some q) = if q == p then none else some q

==-not : (p q : ℕ) → p ≢ q → (q == p) ≡ false
==-not p q h = elim (Bool-cases (q == p)) [
  | inl e ↦ absurd (h (ground (arith, ==-eq q p e)))
  | inr e ↦ e
]

pub free :
    (p : ℕ) (l : Option ℕ) → l ≡ none → ((try_lock p l).0 ≡ true) × ((try_lock p l).1 ≡ some p)
free p l e = rw e (refl, refl)

pub held :
    (p q : ℕ) (l : Option ℕ)
    → l ≡ some q
    → p ≢ q
    → ((try_lock p l).0 ≡ false) × ((try_lock p l).1 ≡ some q)
held p q l e h = rw (e, ==-not p q h) (refl, refl)

pub own : (p : ℕ) (l : Option ℕ) → l ≡ some p → unlock p l ≡ none
own p l e = rw (e, ==_refl p) refl

pub other : (p q : ℕ) (l : Option ℕ) → l ≡ some q → p ≢ q → unlock p l ≡ some q
other p q l e h = rw (e, ==-not p q h) refl

pub open_file : (p : ℕ) (l : Option ℕ) → l ≡ none → unlock p l ≡ none
open_file p l e = rw e refl

abbrev pub lock_file : LockFile
lock_file = record {
  L = Option ℕ;
  holder = λ l. l;
  acquire = try_lock;
  release = unlock;
  acquire-free = free;
  acquire-held = held;
  release-held = own;
  release-other = other;
  release-free = open_file;
}

abbrev pub digit : ℕ → List ℕ
digit n = (n + b'0') ∷ []

abbrev pub nobody : World digit lock_file
nobody = record { lock = none; children = []; daemons = [] }

abbrev both : World digit lock_file
both = record { lock = none; children = 8 ∷ 7 ∷ []; daemons = [] }

abbrev first : World digit lock_file
first = record { lock = some 7; children = 8 ∷ []; daemons = 7 ∷ [] }

abbrev pub won : World digit lock_file
won = record { lock = some 7; children = []; daemons = 7 ∷ [] }

-- Both find no daemon, the first gets the lock, the second exits.
pub race : Run digit lock_file nobody won
unfolding main get_pid daemonize record_pid without
race =
    then_step
      (then_step
        (then_step (then_step (no_step nobody) (fork_child nobody 7 refl))
          (fork_child (record { lock = none; children = 7 ∷ []; daemons = [] }) 8 refl))
        (become_daemon both 7 (b'7' ∷ 10 ∷ []) (λ e. cc e) refl refl))
      (give_up_lock first 8 0 (λ e. cc e) refl refl)

one_daemon_example : (length won.daemons ≤ 1) × (won.daemons ≡ list_of won.lock)
one_daemon_example = one_daemon digit lock_file nobody won refl race

abbrev console : Console
console = record { sent_words = []; shown = []; decoder = buf_of (b'1' ∷ []) }

abbrev pub session : Session
session = record { console = console; buffer = replicate 1024 0; closed = [] }

abbrev pub link : Link
link = record { socket = some 5; connected = true }

abbrev some_words : List ℕ
some_words = 0x1000230 ∷ 560 ∷ 90000 ∷ []

-- `3`, some words from the server, and `q`.
abbrev pub typed : List ℕ → Ready
typed line = record {
  is_ready = λ x. x == 0;
  ir = none;
  accepted = none;
  received = λ s. if s == 0 then some line else some (bytes_of some_words);
}

abbrev pub came : Ready
came = record {
  is_ready = λ x. x == 5;
  ir = none;
  accepted = none;
  received = λ s. if s == 0 then none else some (bytes_of some_words);
}

pub typed-Stays : Stays 0 5 (typed (codes "3\n"))
unfolding read_server last_key
typed-Stays = record {
  words = some_words;
  given = refl;
  size = omega arith;
  small = (omega arith, (omega arith, (omega arith, tt)));
  other_key = λ e. refl;
  some_words = λ e. omega arith;
}

pub came-Stays : Stays 0 5 came
unfolding read_server last_key
came-Stays = record {
  words = some_words;
  given = refl;
  size = omega arith;
  small = (omega arith, (omega arith, (omega arith, tt)));
  other_key = λ e. cc;
  some_words = λ e. omega arith;
}

pub quit_line : last_key (read_server ((typed (codes "q\n")).received 0)) 0 ≡ b'q'
unfolding read_server last_key
quit_line = refl
