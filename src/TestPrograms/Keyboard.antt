-- ===== src/TestPrograms/Keyboard.antt =====
-- raspberrypi/ir-test0/iokey.c, with its copies in ir-test1 to ir-test3: the keyboard of the test
-- programs, and the mode of the terminal that they run in. A mode is a value that the C library gives
-- and takes, and `cfmakeraw` a function on it.
use irbridge.Base.{
  ℕ, zero, suc, ◌+◌, ◌≡◌, refl, Bool, true, false, not, Option, none, some, List, [], ◌∷◌, ◌==◌,
  ◌-◌, ◌^◌, if◌then◌else◌, arith,
}

-- `kbhit`: what `select` returns, `none` for -1, as a C truth value.
unfoldable pub kbhit : Option ℕ → Bool
kbhit none = true
kbhit (some n) = not (n == 0)

-- `getch`: what `read` gives, `none` for -1; the `int` as its 32 bits. At the end of the input `c`
-- has not been set.
unfoldable pub getch : Option (List ℕ) → ℕ → ℕ
getch none c = 2 ^ 32 - 1
getch (some []) c = c
getch (some (b ∷ bytes)) c = b

-- The key of a round: `if (kbhit()) { int c = getch(); ... }`.
unfoldable pub key_pressed : Option ℕ → Option (List ℕ) → ℕ → Option ℕ
key_pressed selected bytes c = if kbhit selected then some (getch bytes c) else none

-- The terminal on descriptor 0, if there is one, `orig_termios`, and the number of the handlers that
-- `atexit` has registered; all are `reset_terminal_mode`.
pub record Tty (M : Type 0) : Type 0 where
  pub mode : Option M
  pub orig_termios : M
  pub at_exit : ℕ

module _ {M : Type 0} where
  -- `tcsetattr(0, TCSANOW, &m)` and `tcgetattr(0, &orig_termios)`; they fail without a terminal.
  abbrev pub tcsetattr : M → Tty M → Tty M
  tcsetattr m t = record t { mode = elim t.mode [ none ↦ none | some old ↦ some m ] }

  abbrev pub tcgetattr : Tty M → Tty M
  tcgetattr t = record t { orig_termios = elim t.mode [ none ↦ t.orig_termios | some m ↦ m ] }

  unfoldable pub reset_terminal_mode : Tty M → Tty M
  reset_terminal_mode t = tcsetattr t.orig_termios t

  unfoldable pub set_conio_terminal_mode : (M → M) → Tty M → Tty M
  set_conio_terminal_mode cfmakeraw t =
      let kept = tcgetattr t in
      tcsetattr (cfmakeraw kept.orig_termios) (record kept { at_exit = kept.at_exit + 1 })

  -- The end of the process runs the handlers.
  abbrev pub handlers : ℕ → Tty M → Tty M
  handlers zero t = t
  handlers (suc n) t = handlers n (reset_terminal_mode t)

  abbrev pub exit_process : Tty M → Tty M
  exit_process t = handlers t.at_exit t

  -- What a program does to the terminal: its mode is set behind the opening of the device, and the
  -- handlers run when `main` returns.
  unfoldable pub in_terminal : (M → M) → Bool → Option ℕ → Tty M → Tty M
  in_terminal cfmakeraw opened none t = set_conio_terminal_mode cfmakeraw t
  in_terminal cfmakeraw opened (some status) t =
      exit_process (if opened then set_conio_terminal_mode cfmakeraw t else t)

  -- A test program, started without handlers, leaves the terminal in the mode in which it was.
  pub in_terminal-mode :
      (cfmakeraw : M → M) (opened : Bool) (status : ℕ) (t : Tty M)
      → t.at_exit ≡ 0
      → (in_terminal cfmakeraw opened (some status) t).mode ≡ t.mode
  unfolding in_terminal set_conio_terminal_mode reset_terminal_mode
  in_terminal-mode cfmakeraw opened status t none_yet = go opened t.mode refl
    where
      once : t.at_exit + 1 ≡ 1
      once = omega arith

      go :
          (b : Bool) (m : Option M)
          → t.mode ≡ m
          → (in_terminal cfmakeraw b (some status) t).mode ≡ m
      go false m e = rw none_yet e
      go true none e = rw (once, e) refl
      go true (some m) e = rw (once, e) refl
