-- ===== src/Config/Lines.antt =====
-- readconf (raspberrypi/irbrgd/main.c:82): lines that are continued, and lines of words.
use irbridge.Base.{
  ℕ, ◌<◌, ◌≡◌, refl, ap, ap₂, ◌∙◌, not, ◌&&◌, Bool, true, false, none, some, List, [], ◌∷◌, ◌++◌,
  append_assoc, append-nil, ◌⊎◌, inl, inr, ok, fault, ◌>>=◌, All, IsText, codes, length,
  length-append, ltb, ◌==◌, arith,
}
use irbridge.Config.{Conf, line_size, assign, read_line, read_lines}
use irbridge.Config.Split.{white}
use irbridge.Config.Split.Laws.{IsBlank, IsDark, split_key_line, split_key_key}
use irbridge.Config.Trim.{trim}

-- That a line is continued by the next one.
abbrev pub IsContinued : List ℕ → Type 0
IsContinued l = ((trim l).multiline ≡ true) × (0 < length (trim l).text)

-- The text of some lines, one behind the other.
abbrev pub joined : List (List ℕ) → List ℕ
joined [] = []
joined (l ∷ ls) = (trim l).text ++ joined ls

module _ (atoi : List ℕ → ℕ) where
  continue_lines :
      (ls : List (List ℕ)) (last : List ℕ) (rest : List (List ℕ)) (text : List ℕ) (conf : Conf)
      → All IsContinued ls
      → (trim last).multiline ≡ false
      → 0 < length (trim last).text
      → let whole = text ++ joined (ls ++ (last ∷ [])) in
        length whole < line_size
        → read_lines atoi (ls ++ (last ∷ rest)) true text conf
          ≡ (read_line atoi whole conf >>= read_lines atoi rest false whole)
  unfolding read_lines
  continue_lines [] last rest text conf h m some_text fits =
      let t = (trim last).text in
      let e : (length t == 0) ≡ false = ground arith in
      let room : ltb (length (text ++ t)) line_size ≡ true =
        ground (arith, length-append text (t ++ []), length-append text t, length-append t []) in
      rw (e, room, m, append-nil t) refl
  continue_lines (l ∷ ls) last rest text conf h m some_text fits =
      let t = (trim l).text in
      let more = joined (ls ++ (last ∷ [])) in
      let e : (length t == 0) ≡ false = ground (arith, h.0.1) in
      let regroup : (text ++ t) ++ more ≡ text ++ (t ++ more) = append_assoc text t more in
      let room : ltb (length (text ++ t)) line_size ≡ true =
        ground
          (arith, length-append text (t ++ more), length-append text t, length-append t more) in
      rw (e, room, h.0.0)
        (continue_lines ls last rest (text ++ t) conf h.1 m some_text
            (omega (arith, ap length regroup))
          ∙ ap (λ w. read_line atoi w conf >>= read_lines atoi rest false w) regroup)

  -- Lines that each ask to be continued, and a last one that does not, none of them empty once it
  -- is trimmed, are read as one line, the trimmed texts one behind the other, if it is shorter than
  -- the 1024 characters of `line`.
  pub read_lines-joined :
      (l : List ℕ) (ls : List (List ℕ)) (last : List ℕ) (rest : List (List ℕ)) (line : List ℕ)
      (conf : Conf)
      → All IsContinued (l ∷ ls)
      → (trim last).multiline ≡ false
      → 0 < length (trim last).text
      → let whole = joined (l ∷ (ls ++ (last ∷ []))) in
        length whole < line_size
        → read_lines atoi (l ∷ (ls ++ (last ∷ rest))) false line conf
          ≡ (read_line atoi whole conf >>= read_lines atoi rest false whole)
  unfolding read_lines
  read_lines-joined l ls last rest line conf h m some_text fits =
      let t = (trim l).text in
      let more = joined (ls ++ (last ∷ [])) in
      let e : (length t == 0) ≡ false = ground (arith, h.0.1) in
      let room : ltb (length t) line_size ≡ true = ground (arith, length-append t more) in
      rw (e, room, h.0.0) (continue_lines ls last rest t conf h.1 m some_text fits)

  -- A line of a key and its arguments assigns the arguments.
  pub read_line-assign :
      (lead key gap rest : List ℕ) (k w a : ℕ) (conf : Conf)
      → All IsBlank lead
      → All IsDark (k ∷ key)
      → All IsBlank (w ∷ gap)
      → IsDark a
      → IsText (k ∷ key)
      → IsText (a ∷ rest)
      → read_line atoi (lead ++ (k ∷ (key ++ (w ∷ (gap ++ (a ∷ rest)))))) conf
        ≡ assign atoi (k ∷ key) (some (a ∷ rest)) conf
  unfolding read_line
  read_line-assign lead key gap rest k w a conf hl hk hw ha tk ta =
      let r = split_key_line lead key gap rest k w a hl hk hw ha tk ta in
      ap₂ (λ k' a'. elim k' [ none ↦ ok conf | some key' ↦ assign atoi key' a' conf ]) r.0 r.1

  -- A key without arguments.
  read_line_key :
      (lead key : List ℕ) (k : ℕ) (conf : Conf)
      → All IsBlank lead
      → All IsDark (k ∷ key)
      → IsText (k ∷ key)
      → read_line atoi (lead ++ (k ∷ key)) conf ≡ assign atoi (k ∷ key) none conf
  unfolding read_line
  read_line_key lead key k conf hl hk tk =
      let r = split_key_key lead key k hl hk tk in
      ap₂ (λ k' a'. elim k' [ none ↦ ok conf | some key' ↦ assign atoi key' a' conf ]) r.0 r.1

  -- The test of a text that it has no blanks and no zeros.
  dark : List ℕ → Bool
  dark [] = true
  dark (c ∷ cs) = not (white c) && not (c == 0) && dark cs

  dark-All : (cs : List ℕ) → dark cs ≡ true → All IsDark cs × IsText cs
  unfolding dark
  dark-All [] h = (tt, tt)
  dark-All (c ∷ cs) h =
      let rest : dark cs ≡ true = ground arith in
      let ih = dark-All cs rest in ((ground arith, ih.0), ((ground arith), ih.1))

  -- A line that is one of the four known keys, behind blanks or none, without arguments, makes
  -- `readconf` read a null pointer.
  pub read_line_no_args :
      (lead key : List ℕ) (conf : Conf)
      → All IsBlank lead
      → (key ≡ codes "port")
        ⊎ ((key ≡ codes "starfrit") ⊎ ((key ≡ codes "starfrit_url") ⊎ (key ≡ codes "led")))
      → read_line atoi (lead ++ key) conf ≡ fault
  unfolding assign dark
  read_line_no_args lead key conf hl known = elim known [
    | inl e ↦ rw e (let d = dark-All (codes "port") refl in read_line_key lead _ _ conf hl d.0 d.1)
    | inr (inl e) ↦
        rw e (let d = dark-All (codes "starfrit") refl in read_line_key lead _ _ conf hl d.0 d.1)
    | inr (inr (inl e)) ↦
        rw e
          (let d = dark-All (codes "starfrit_url") refl in read_line_key lead _ _ conf hl d.0 d.1)
    | inr (inr (inr e)) ↦
        rw e (let d = dark-All (codes "led") refl in read_line_key lead _ _ conf hl d.0 d.1)
  ]
