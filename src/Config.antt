-- ===== src/Config.antt =====
-- raspberrypi/irbrgd/trim.c and readconf of raspberrypi/irbrgd/main.c: the configuration file. An
-- `int` is its 32 bits; `atoi` is a parameter, and `malloc` is taken not to fail.
pub mod Trim
pub mod Split
pub mod Lines
pub mod Overflow
use irbridge.Base.{
  ℕ, zero, suc, ◌+◌, ◌<◌, ◌≡◌, Bool, true, false, not, ◌&&◌, ◌||◌, Option, none, some, List, [],
  ◌∷◌, ◌++◌, Outcome, ok, fault, ◌>>=◌, length, drop, codes, ltb, ◌==◌, if◌then◌else◌,
}
use Trim.{Trimmed, trim}
use Split.{split_key, key_of, args_of}

-- `conf`
pub record Conf : Type 0 where
  pub port : ℕ
  pub led : ℕ
  pub starfrit : Bool
  pub starfrit_args : List ℕ

abbrev pub default_conf : Conf
default_conf = record { port = 8000; led = 0; starfrit = false; starfrit_args = [] }

-- `strcmp(a, b) == 0`
abbrev pub same_text : List ℕ → List ℕ → Bool
same_text [] [] = true
same_text [] (y ∷ ys) = false
same_text (x ∷ xs) [] = false
same_text (x ∷ xs) (y ∷ ys) = x == y && same_text xs ys

abbrev pub line_size : ℕ
line_size = 1024

-- A pointer that is dereferenced.
abbrev pub given {ℓ} : {A : Type ℓ} → Option A → Outcome A
given none = fault
given (some x) = ok x

module _ (atoi : List ℕ → ℕ) where
  -- What is done with a key and its arguments.
  unfoldable pub assign : List ℕ → Option (List ℕ) → Conf → Outcome Conf
  assign key args conf =
      if same_text key (codes "port")
      then (given args >>= λ a. ok (record conf { port = atoi a }))
      else if same_text key (codes "starfrit")
      then (given args >>= λ a. ok (record conf { starfrit = same_text a (codes "ON") }))
      else if same_text key (codes "starfrit_url")
      then (given args >>= λ a.
          if ltb (length a) 1024 then ok (record conf { starfrit_args = a }) else fault)
      else if same_text key (codes "led")
      then (given args >>= λ a. ok (record conf { led = atoi a }))
      else ok conf

  -- `splitKey` on a whole line and the assignment.
  unfoldable pub read_line : List ℕ → Conf → Outcome Conf
  read_line line conf =
      let r = split_key line in
      elim (key_of r) [ none ↦ ok conf | some key ↦ assign key (args_of r) conf ]

  -- The loop of `readconf` over the lines that `fgets` returns. `line` is the text collected so
  -- far, and only looked at where the line before had asked to be continued.
  unfoldable pub read_lines : List (List ℕ) → Bool → List ℕ → Conf → Outcome Conf
  read_lines [] is_multiline line conf = ok conf
  read_lines (fileline ∷ rest) is_multiline line conf =
      let t = trim fileline in
      let line' = if is_multiline then line ++ t.text else t.text in
      let skip = read_lines rest is_multiline line conf in
      let collect = read_lines rest true line' conf in
      let next = read_line line' conf >>= read_lines rest false line' in
      if length t.text == 0
      then skip
      else if ltb (length line') line_size
      then (if t.multiline then collect else next)
      else fault

  -- `file` holds the lines, or is `none` where the file cannot be opened.
  unfoldable pub readconf : Option (List (List ℕ)) → Conf → Outcome Conf
  readconf none conf = ok conf
  readconf (some lines) conf = read_lines lines false [] conf
