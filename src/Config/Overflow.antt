-- ===== src/Config/Overflow.antt =====
-- readconf (raspberrypi/irbrgd/main.c:82): continued lines that are too long together.
use irbridge.Base.{
  ℕ, ◌<◌, ◌≤◌, ◌≡◌, refl, ap, true, false, List, [], ◌∷◌, ◌++◌, append_assoc, inl, inr, Bool-cases,
  fault, All, length, length-append, ltb, ◌==◌, arith,
}
use irbridge.Config.{Conf, line_size, read_lines}
use irbridge.Config.Lines.{IsContinued, joined}
use irbridge.Config.Trim.{trim}

module _ (atoi : List ℕ → ℕ) where
  continued_overflow :
      (ls : List (List ℕ)) (last : List ℕ) (rest : List (List ℕ)) (text : List ℕ) (conf : Conf)
      → All IsContinued ls
      → 0 < length (trim last).text
      → line_size ≤ length (text ++ joined (ls ++ (last ∷ [])))
      → read_lines atoi (ls ++ (last ∷ rest)) true text conf ≡ fault
  unfolding read_lines
  continued_overflow [] last rest text conf h some_text over =
      let t = (trim last).text in
      let e : (length t == 0) ≡ false = ground arith in
      let room : ltb (length (text ++ t)) line_size ≡ false =
        ground (arith, length-append text (t ++ []), length-append text t, length-append t []) in
      rw (e, room) refl
  continued_overflow (l ∷ ls) last rest text conf h some_text over =
      let t = (trim l).text in
      let more = joined (ls ++ (last ∷ [])) in
      let e : (length t == 0) ≡ false = ground (arith, h.0.1) in
      let regroup : (text ++ t) ++ more ≡ text ++ (t ++ more) = append_assoc text t more in
      elim (Bool-cases (ltb (length (text ++ t)) line_size)) [
        | inr full ↦ rw (e, full) refl
        | inl room ↦
            rw (e, room, h.0.0)
              (continued_overflow ls last rest (text ++ t) conf h.1 some_text
                (omega (arith, ap length regroup)))
      ]

  -- Lines that each ask to be continued, and one behind them, none of them empty once it is
  -- trimmed, whose trimmed texts have 1024 characters or more together, make `readconf` write
  -- behind `line`, whatever the lines behind them are.
  pub read_lines_overflow :
      (l : List ℕ) (ls : List (List ℕ)) (last : List ℕ) (rest : List (List ℕ)) (line : List ℕ)
      (conf : Conf)
      → All IsContinued (l ∷ ls)
      → 0 < length (trim last).text
      → line_size ≤ length (joined (l ∷ (ls ++ (last ∷ []))))
      → read_lines atoi (l ∷ (ls ++ (last ∷ rest))) false line conf ≡ fault
  unfolding read_lines
  read_lines_overflow l ls last rest line conf h some_text over =
      let t = (trim l).text in
      let e : (length t == 0) ≡ false = ground (arith, h.0.1) in
      elim (Bool-cases (ltb (length t) line_size)) [
        | inr full ↦ rw (e, full) refl
        | inl room ↦ rw (e, room, h.0.0) (continued_overflow ls last rest t conf h.1 some_text over)
      ]
