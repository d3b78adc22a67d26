-- ===== src/TestPrograms/Levels.antt =====
-- What ir-test0 prints (raspberrypi/ir-test0/main.c:63).
use irbridge.Base.{
  ℕ, ◌-◌, ◌≡◌, refl, sym, ap, ◌∙◌, true, false, Option, none, some, List, [], ◌∷◌, ◌++◌, map,
  append_assoc, append-nil, ok, All, length, drop, ltb, arith,
}
use irbridge.Daemon.{into}
use irbridge.Daemon.Words.{words_in, bytes_of, IsWord, length-bytes_of, words_in-bytes_of}
use irbridge.Decoder.Refine.{bytes}
use irbridge.Lirc.{is_pulse, duration}
use irbridge.TestPrograms.{Message, level, Terminal, print_levels, test0_round}

abbrev pub level_of : ℕ → Message
level_of w = level (is_pulse w) (duration w)

print_levels-map :
    (ws behind : List ℕ) (out : List Message)
    → print_levels (ws ++ behind) (bytes ws) out ≡ ok (out ++ map level_of ws)
unfolding print_levels
print_levels-map [] [] out = ap ok (sym (append-nil out))
print_levels-map [] (b ∷ behind) out = ap ok (sym (append-nil out))
print_levels-map (w ∷ ws) behind out =
    let more : ltb 0 (bytes (w ∷ ws)) ≡ true = ground arith in
    let left : bytes (w ∷ ws) - 4 ≡ bytes ws = omega arith in
    rw (more, left)
      (print_levels-map ws behind (out ++ (level_of w ∷ []))
        ∙ ap ok (append_assoc out (level_of w ∷ []) (map level_of ws)))

pub test0_round-map :
    (key : Option ℕ) (ws : List ℕ) (t : Terminal)
    → All IsWord ws
    → test0_round key (some (bytes_of ws)) t
      ≡ ok (
        elim key [ none ↦ false | some _ ↦ true ],
        record t { printed = t.printed ++ map level_of ws; buffer = into t.buffer (bytes_of ws) },
      )
unfolding test0_round
test0_round-map key ws t words =
    let behind = drop (length (bytes_of ws)) t.buffer in
    let printed =
      ap (λ (n : ℕ). print_levels (ws ++ words_in behind) n t.printed) (length-bytes_of ws)
      ∙ print_levels-map ws (words_in behind) t.printed in
    rw (words_in-bytes_of ws behind words, printed) refl
