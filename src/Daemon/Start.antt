-- ===== src/Daemon/Start.antt =====
-- What comes before the main loop in raspberrypi/irbrgd/main.c: the checks of the driver in
-- main_demonized, and the choice of main and getPID between starting and stopping. What the system
-- calls return is an argument, `none` for -1.
use irbridge.Base.{
  ℕ, ◌≤◌, ◌≡◌, refl, Bool, true, false, not, Bool-cases, inl, inr, ◌⊎◌, Option, none, some, List,
  [], ◌∷◌, codes, leb, ◌==◌, if◌then◌else◌, arith,
}
use irbridge.Config.{same_text}
use irbridge.Server.{Server}
use irbridge.Server.Connect.{Calls, Connection, init_connection, is_refused}

pub data Kind : Type 0 where
  fifo char_device other : Kind

-- `open`, `fstat` and the driver's mode.
pub record Driver : Type 0 where
  pub fd : Option ℕ
  pub stat : Option Kind
  pub rec_mode : Option ℕ

-- `LIRC_MODE_MODE2`
abbrev pub mode2 : ℕ
mode2 = 4

unfoldable pub check_mode : Option ℕ → Bool
check_mode none = false
check_mode (some m) = m == mode2

-- "some checks about IR driver"
unfoldable pub check_driver : Option Kind → Option ℕ → Bool
check_driver (some fifo) mode = true
check_driver (some other) mode = false
check_driver (some char_device) mode = check_mode mode
check_driver none mode = check_mode mode

-- `!fd`; the -1 of a failed `open` is not zero.
abbrev pub is_zero : Option ℕ → Bool
is_zero none = false
is_zero (some fd) = fd == 0

-- Up to the main loop: `none` where 1 is returned, or what `init_connection` has returned.
unfoldable pub start : Driver → ℕ → Calls → Server → Option Connection
start driver port calls σ =
    let r = init_connection port calls σ in
    if is_zero driver.fd
    then none
    else if not (check_driver driver.stat driver.rec_mode)
    then none
    else if is_refused r.0
    then none
    else some r.0

-- The lock file: `open`, `fcntl`, whether the lock is held, and by whom.
pub record Lock : Type 0 where
  pub opened : Bool
  pub queried : Bool
  pub unlocked : Bool
  pub holder : ℕ

-- -1, -2, -3, or the holder's process.
pub data Pid : Type 0 where
  no_file no_answer no_holder : Pid
  held_by : ℕ → Pid

unfoldable pub get_pid : Lock → Pid
get_pid lock =
    if not lock.opened
    then no_file
    else if not lock.queried
    then no_answer
    else if lock.unlocked
    then no_holder
    else held_by lock.holder

-- `pid >= 1`
abbrev pub is_running : Pid → Bool
is_running no_file = false
is_running no_answer = false
is_running no_holder = false
is_running (held_by n) = leb 1 n

abbrev pub process_of : Pid → ℕ
process_of no_file = 0
process_of no_answer = 0
process_of no_holder = 0
process_of (held_by n) = n

-- What `main` does: run the daemon, send a signal to it, or exit with 1.
pub data Action : Type 0 where
  run_daemon : Action
  hang_up : ℕ → Action
  exit_one : Action

-- The arguments behind the program's name.
unfoldable pub main : List (List ℕ) → Lock → Action
main [] lock = exit_one
main (a ∷ b ∷ rest) lock = exit_one
main (a ∷ []) lock =
    let pid = get_pid lock in
    if same_text a (codes "start")
    then (if is_running pid then exit_one else run_daemon)
    else if same_text a (codes "stop")
    then (if is_running pid then hang_up (process_of pid) else exit_one)
    else exit_one

-- That the lock file can be asked, and a process above 0 holds the lock.
abbrev pub IsLocked : Lock → Type 0
IsLocked lock =
    (lock.opened ≡ true) × (lock.queried ≡ true) × (lock.unlocked ≡ false) × (1 ≤ lock.holder)

not_both : (b : Bool) → b ≡ true → b ≡ false → ⊥
not_both b yes' no' = cc

-- If the lock file can be asked, and a process above 0 holds the lock, `start` exits with 1 and
-- `stop` sends its signal to that process and to no other; in every other state of the lock file
-- `start` runs the daemon and `stop` exits with 1.
pub main_exclusive :
    (lock : Lock)
    → (IsLocked lock
        × (main (codes "start" ∷ []) lock ≡ exit_one)
        × (main (codes "stop" ∷ []) lock ≡ hang_up lock.holder))
      ⊎ ((¬ IsLocked lock)
          × (main (codes "start" ∷ []) lock ≡ run_daemon)
          × (main (codes "stop" ∷ []) lock ≡ exit_one))
unfolding main get_pid
main_exclusive lock = elim (Bool-cases lock.opened) [
  | inr missing ↦
      inr ((λ (o, q, u, h). not_both lock.opened o missing), rw missing refl, rw missing refl)
  | inl opened ↦ elim (Bool-cases lock.queried) [
    | inr unknown ↦ inr (
      (λ (o, q, u, h). not_both lock.queried q unknown),
      (rw (opened, unknown) refl),
      (rw (opened, unknown) refl),
    )
    | inl queried ↦ elim (Bool-cases lock.unlocked) [
      | inl free ↦ inr (
        (λ (o, q, u, h). not_both lock.unlocked free u),
        (rw (opened, queried, free) refl),
        (rw (opened, queried, free) refl),
      )
      | inr taken ↦ elim (Bool-cases (leb 1 lock.holder)) [
        | inl above ↦ inl (
          (opened, queried, taken, ground arith),
          (rw (opened, queried, taken, above) refl),
          (rw (opened, queried, taken, above) refl),
        )
        | inr below ↦ inr (
          (λ (o, q, u, h). ground arith),
          (rw (opened, queried, taken, below) refl),
          (rw (opened, queried, taken, below) refl),
        )
      ]
    ]
  ]
]
