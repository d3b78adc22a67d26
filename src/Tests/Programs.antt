-- ===== src/Tests/Programs.antt =====
-- The programs ir-test1 to ir-test3 on concrete inputs.
use irbridge.Base.{ℕ, ◌≡◌, refl, true, false, none, some, List, [], ◌∷◌, ◌++◌, ok, replicate, arith}
use irbridge.Bitops.Unpacking.{bit_chars}
use irbridge.Daemon.{into}
use irbridge.Daemon.Words.{bytes_of}
use irbridge.Decoder.Protocol.{buf_of}
use irbridge.Decoder.Refine.{bytes}
use irbridge.Encoder.{received}
use irbridge.Nec.Symbols.{nec}
use irbridge.TestPrograms.{help, frame, sending, Terminal, test1_round, test2_round, test1_main}
use irbridge.TestPrograms.Ending.{stream, heard, given, waiting, Hears, test1_main_ends}
use irbridge.TestPrograms.Remote.{
  light_key, light_bytes, light_words, light_name, test2_round-test1_round,
}
use irbridge.Tests.{alloc, alloc-fresh}

abbrev terminal : Terminal
terminal = record {
  printed = help ∷ [];
  written = [];
  buffer = replicate 1024 3;
  decoder = buf_of [];
}

-- Half of a frame, nothing, and the rest with a key.
abbrev half : List ℕ
half = 0x1000230 ∷ 560 ∷ 0x1000230 ∷ 1680 ∷ []

abbrev other_half : List ℕ
other_half = 0x1000230 ∷ 560 ∷ 77000 ∷ []

test1_main_ends_example :
    (after : Terminal) × (test1_main alloc true
        (waiting (some half ∷ none ∷ []) ++ ((some b'x', given (some other_half)) ∷ []))
        terminal
      ≡ ok (some 0, after))
    × Hears nec true (stream (some half ∷ none ∷ []) ++ heard (some other_half)) [] terminal after
test1_main_ends_example =
    test1_main_ends alloc alloc-fresh (some half ∷ none ∷ []) (some other_half) b'x' [] [] terminal
      (omega arith) (omega arith) refl (omega arith) tt

test2_round-test1_round_example :
    let text = bit_chars 32 (light_bytes true) in
    let rx = bytes_of (received 0 (light_words true)) in
    (test2_round alloc (some (light_key true)) none terminal
      ≡ ok (
        false,
        record terminal {
          printed =
              terminal.printed ++ (sending (light_name true) (bytes (light_words true)) text ∷ []);
          written = terminal.written ++ (light_words true ∷ []);
        },
      ))
    × (test1_round alloc none (some rx) terminal
        ≡ ok (
          false,
          record terminal {
            printed = terminal.printed ++ (frame 32 text (light_bytes true) ∷ []);
            buffer = into terminal.buffer rx;
            decoder = buf_of [];
          },
        ))
test2_round-test1_round_example =
    test2_round-test1_round alloc true terminal terminal alloc-fresh refl
