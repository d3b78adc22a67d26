-- ===== src/Tests/Scale.antt =====
-- The bathroom scale on concrete inputs.
use irbridge.Base.{
  All, ℕ, ◌+◌, ◌-◌, ◌^◌, ◌<◌, ◌≡◌, refl, true, not, ◌&&◌, List, [], ◌∷◌, ◌++◌, ok, fault, ◌>>=◌,
  leb, ◌==◌, if◌then◌else◌, length, replicate, codes, arith,
}
use irbridge.Bitops.Unpacking.{bit_chars}
use irbridge.Decoder.Frames.{cut}
use irbridge.Decoder.Protocol.{buf_of}
use irbridge.Decoder.Refine.{bytes}
use irbridge.Starfrit.{
  Frame, check_sum, Client, blink, Scale, wants, measured, push_measurement, starfrit_process,
  command, path_size,
}
use irbridge.Starfrit.Checksum.{IsBytes, check_sum_overflow}
use irbridge.Starfrit.Push.{told, push_measurement_overflow}
use irbridge.Starfrit.Run.{measured_at, last_of, measured_run}
use irbridge.Starfrit.Setup.{starfrit_setup}
use irbridge.Starfrit.Setup.Laws.{
  Group, tokens_of, IsAboveZero, clients_of, starfrit_setup-clients_of,
}
use irbridge.Starfrit.Stream.{weigh_all, starfrit_process-weigh_all, starfrit_process-append}
use irbridge.Starfrit.Unaligned.{starfrit_process-unaligned}
use irbridge.Starfrit.Weigh.{on_air, sent, starfrit_process-measured}
use irbridge.Unkn0.Symbols.{unkn0_symbol}
use irbridge.Tests.{alloc, alloc-fresh, tenths_float}

abbrev clock : ℕ → ℕ
clock n = 1000 + n

abbrev one_client : Client tenths_float
one_client = record { min = 1; max = 2000; url = codes "http://host/w=" }

abbrev far_client : Client tenths_float
far_client = record { min = 1; max = 2000; url = replicate 240 b'u' }

abbrev idle : Scale tenths_float
idle = record {
  last_measurement = 0;
  samevalue_count = 0;
  last_measurement_date = 0;
  clients = one_client ∷ [];
  times = 0;
  effects = [];
}

abbrev far : Scale tenths_float
far = record idle { clients = far_client ∷ [] }

length-command_example_url : length (command tenths_float one_client.url 613) ≡ 39
unfolding command
length-command_example_url = refl

command_room : length (command tenths_float one_client.url 613) < path_size
command_room = omega (arith, length-command_example_url)

far_wants : wants tenths_float 613 far_client ≡ true
unfolding wants
far_wants = refl

-- 61.2 kg.
abbrev frame : Frame
frame = record { trail = 0xab; head = 2; msb = 2; lsb = 100; check = 21 }

frame-IsBytes : IsBytes frame
frame-IsBytes = record {
  trail_lt = omega arith;
  head_lt = omega arith;
  msb_lt = omega arith;
  lsb_lt = omega arith;
}

frame_passes : check_sum frame ≡ 21
unfolding check_sum
frame_passes = refl

starfrit_process-measured_example :
    starfrit_process tenths_float alloc clock
      (on_air (bit_chars 39 (sent frame)) ++ (3 ∷ []))
      (bytes (on_air (bit_chars 39 (sent frame))))
      idle
      (buf_of [])
    ≡ (measured tenths_float 613 1000 (record idle { times = 1 }) >>= λ σ'. ok (σ', buf_of []))
starfrit_process-measured_example =
    starfrit_process-measured tenths_float alloc clock frame (3 ∷ []) idle alloc-fresh frame-IsBytes
      refl (omega arith) frame_passes

-- A pulse and a space, and a gap.
abbrev some_words : List ℕ
some_words = 0x1000230 ∷ 560 ∷ 90000 ∷ []

starfrit_process-weigh_all_example :
    starfrit_process tenths_float alloc clock
      (some_words ++ (3 ∷ []))
      (bytes some_words)
      idle
      (buf_of (b'1' ∷ []))
    ≡ (weigh_all tenths_float alloc clock (cut unkn0_symbol (b'1' ∷ []) some_words).frames idle
        >>= λ σ'. ok (σ', buf_of (cut unkn0_symbol (b'1' ∷ []) some_words).open_bits))
starfrit_process-weigh_all_example =
    starfrit_process-weigh_all tenths_float alloc clock some_words (3 ∷ []) (b'1' ∷ []) idle
      alloc-fresh (omega arith) (omega arith) (refl, tt)

starfrit_process-append_example :
    (starfrit_process tenths_float alloc clock
        (some_words ++ (3 ∷ []))
        (bytes some_words)
        idle
        (buf_of (b'1' ∷ []))
      >>= λ r.
          starfrit_process tenths_float alloc clock (some_words ++ []) (bytes some_words) r.0 r.1)
    ≡ starfrit_process tenths_float alloc clock
        ((some_words ++ some_words) ++ (4 ∷ []))
        (bytes (some_words ++ some_words))
        idle
        (buf_of (b'1' ∷ []))
starfrit_process-append_example =
    starfrit_process-append tenths_float alloc clock some_words some_words (3 ∷ []) [] (4 ∷ [])
      (b'1' ∷ []) idle (omega arith) (omega arith)

starfrit_process-unaligned_example :
    starfrit_process tenths_float alloc clock some_words (2 ^ 32 - 1) idle (buf_of (b'1' ∷ []))
    ≡ fault
starfrit_process-unaligned_example =
    starfrit_process-unaligned tenths_float alloc clock some_words (b'1' ∷ []) (2 ^ 32 - 1) idle
      (omega arith) (omega arith)

abbrev seconds : List ℕ
seconds = 102 ∷ 104 ∷ 106 ∷ 108 ∷ 110 ∷ 112 ∷ 114 ∷ 116 ∷ 118 ∷ 120 ∷ []

measured_run_example :
    measured_at tenths_float 613 (100 ∷ seconds) idle
    ≡ ok (record idle {
      last_measurement = 613;
      samevalue_count = length seconds;
      last_measurement_date = last_of 100 seconds;
      effects =
          if leb 10 (length seconds) && not (612 == 0)
          then [] ++ (blink ∷ told tenths_float 613 (one_client ∷ []))
          else [];
    })
measured_run_example =
    measured_run tenths_float 612 100 seconds idle (omega arith) refl
      (
        omega arith,
        (
          omega arith,
          (
            omega arith,
            (
              omega arith,
              (
                omega arith,
                (omega arith, (omega arith, (omega arith, (omega arith, (omega arith, tt))))),
              ),
            ),
          ),
        ),
      )
      (command_room, tt)

push_measurement_overflow_example : push_measurement tenths_float 613 far ≡ fault
push_measurement_overflow_example =
    push_measurement_overflow tenths_float 613 far_client far [] [] refl tt far_wants (omega arith)

abbrev odd_frame : Frame
odd_frame = record { trail = 0xff; head = 0xff; msb = 0xff; lsb = 2; check = 1 }

check_sum_overflow_example : check_sum odd_frame ≡ 257
check_sum_overflow_example =
    check_sum_overflow odd_frame
      (record {
        trail_lt = omega arith;
        head_lt = omega arith;
        msb_lt = omega arith;
        lsb_lt = omega arith;
      })
      (omega arith) (omega arith)

abbrev groups : List Group
groups =
    record { low = codes "10"; high = codes " 20 "; url = codes "http://a" }
    ∷ record { low = codes "0"; high = codes "0"; url = codes "ftp://b" }
    ∷ []

starfrit_setup_example :
    (starfrit_setup tenths_float (tokens_of groups) ≡ ok (clients_of tenths_float groups))
    × All (IsAboveZero tenths_float) (clients_of tenths_float groups)
starfrit_setup_example = starfrit_setup-clients_of tenths_float groups (omega arith)
