-- ===== src/Tests/Settings.antt =====
-- The configuration file on concrete inputs.
use irbridge.Base.{
  ℕ, ◌≡◌, inl, refl, true, false, Option, none, some, List, [], ◌∷◌, ◌++◌, fault, ◌>>=◌, replicate,
  codes, arith,
}
use irbridge.Config.{default_conf, read_line, read_lines}
use irbridge.Config.Lines.{IsContinued, joined, read_lines-joined, read_line_no_args}
use irbridge.Config.Overflow.{read_lines_overflow}
use irbridge.Config.Split.{split_key, split_from, key_of, args_of}
use irbridge.Config.Split.Laws.{split_key_line}
use irbridge.Config.Trim.{trim, trim_head, trim_tail}
use irbridge.Config.Trim.Laws.{trim_text}

abbrev no_number : List ℕ → ℕ
no_number s = 0

trim_text_example :
    trim ((b' ' ∷ []) ++ (b'l' ∷ ((b'e' ∷ b'd' ∷ []) ++ (b' ' ∷ 10 ∷ []))))
    ≡ record { text = codes "led"; multiline = false }
trim_text_example =
    trim_text (b' ' ∷ []) (b' ' ∷ 10 ∷ []) (b'e' ∷ b'd' ∷ []) (b'e' ∷ b'l' ∷ []) b'l' b'd' refl
      (refl, tt) (refl, (refl, tt)) refl (omega arith) refl (omega arith) (refl, (refl, (refl, tt)))

split_key_line_example :
    (key_of
        (split_key ((b' ' ∷ []) ++ (b'h' ∷ ((b'i' ∷ []) ++ (b' ' ∷ ([] ++ (b'y' ∷ b'o' ∷ [])))))))
      ≡ some (codes "hi"))
    × (args_of
          (split_key ((b' ' ∷ []) ++ (b'h' ∷ ((b'i' ∷ []) ++ (b' ' ∷ ([] ++ (b'y' ∷ b'o' ∷ [])))))))
        ≡ some (codes "yo"))
split_key_line_example =
    split_key_line (b' ' ∷ []) (b'i' ∷ []) [] (b'o' ∷ []) b'h' b' ' b'y' (refl, tt)
      (refl, (refl, tt)) (refl, tt) refl (omega arith, (omega arith, tt))
      (omega arith, (omega arith, tt))

-- "led \" and "4".
abbrev first_line : List ℕ
first_line = b'l' ∷ b'e' ∷ b'd' ∷ b' ' ∷ 92 ∷ 10 ∷ []

abbrev last_line : List ℕ
last_line = b'4' ∷ 10 ∷ []

trim_first : trim first_line ≡ record { text = codes "led  "; multiline = true }
unfolding trim trim_head trim_tail
trim_first = refl

trim_last : trim last_line ≡ record { text = codes "4"; multiline = false }
unfolding trim trim_head trim_tail
trim_last = refl

abbrev whole : List ℕ
whole = joined (first_line ∷ ([] ++ (last_line ∷ [])))

read_lines-joined_example :
    read_lines no_number (first_line ∷ ([] ++ (last_line ∷ []))) false [] default_conf
    ≡ (read_line no_number whole default_conf >>= read_lines no_number [] false whole)
read_lines-joined_example =
    read_lines-joined no_number first_line [] last_line [] [] default_conf
      ((rw trim_first refl, rw trim_first (omega arith)), tt) (rw trim_last refl)
      (rw trim_last (omega arith)) (rw (trim_first, trim_last) (omega arith))

-- As many characters as `fgets` reads into `fileline`, with a backslash behind them.
abbrev long_line : List ℕ
long_line = replicate 253 b'x' ++ (92 ∷ 10 ∷ [])

trim_long : trim long_line ≡ record { text = replicate 253 b'x' ++ (b' ' ∷ []); multiline = true }
unfolding trim trim_head trim_tail
trim_long = refl

read_lines_overflow_example :
    read_lines no_number
      (long_line ∷ ((long_line ∷ long_line ∷ long_line ∷ []) ++ (long_line ∷ [])))
      false
      []
      default_conf
    ≡ fault
read_lines_overflow_example =
    read_lines_overflow no_number long_line (long_line ∷ long_line ∷ long_line ∷ []) long_line [] []
      default_conf (long, (long, (long, (long, tt)))) long.1 (rw trim_long (omega arith))
  where
    long : IsContinued long_line
    long = (rw trim_long refl, rw trim_long (omega arith))

read_line_no_args_example : read_line no_number ([] ++ codes "port") default_conf ≡ fault
read_line_no_args_example = read_line_no_args no_number [] (codes "port") default_conf tt (inl refl)

-- The table behind splitKey (raspberrypi/irbrgd/trim.c:180).
abbrev split : List ℕ → Option (List ℕ) × Option (List ℕ)
split s = (key_of (split_key s), args_of (split_key s))

split_rows :
    (split (codes "hello world") ≡ (some (codes "hello"), some (codes "world")))
    × (split (codes "hello") ≡ (some (codes "hello"), none))
    × (split (codes "  \thello  \t") ≡ (some (codes "hello"), none))
    × (split [] ≡ (none, none))
    × (split (codes "    ") ≡ (none, none))
    × (split (codes "  \thello  \tcou dfsdf \t ")
        ≡ (some (codes "hello"), some (codes "cou dfsdf \t ")))
unfolding split_key split_from
split_rows = (refl, refl, refl, refl, refl, refl)
