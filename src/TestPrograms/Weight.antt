-- ===== src/TestPrograms/Weight.antt =====
-- The key 1 of ir-test3 (raspberrypi/ir-test3/main.c:80) against the scale of the daemon.
use irbridge.Base.{
  ℕ, ◌+◌, ◌≡◌, refl, false, none, some, List, [], ◌∷◌, ◌++◌, ok, ◌>>=◌, Allocates, codes, arith,
}
use irbridge.Bitops.Unpacking.{bit_chars}
use irbridge.Decoder.Protocol.{buf_of}
use irbridge.Decoder.Refine.{bytes}
use irbridge.Loopback.Codecs.{unkn0-Codec}
use irbridge.Starfrit.{Frame, Scale, check_sum, measured, starfrit_process}
use irbridge.Starfrit.Floats.{Float}
use irbridge.Starfrit.Weigh.{on_air, sent, starfrit_process-measured}
use irbridge.TestPrograms.{sending, Terminal, listen, test3_key, test3_round}
use irbridge.TestPrograms.Remote.{send_bits-words}
use irbridge.Unkn0.{unkn0_t0, unkn0_t1}
use irbridge.Encoder.{word_pairs}

-- 88.8 kg.
abbrev weighed : Frame
weighed = record { trail = 0xab; head = 0x80; msb = 0x03; lsb = 0x78; check = 0xa7 }

weighed_passes : check_sum weighed ≡ 0xa7
unfolding check_sum
weighed_passes = refl

-- The bits of the test bytes of ir-test3.
abbrev pub weighed_bits : List ℕ
weighed_bits = bit_chars 39 (0x54 ∷ 0x7f ∷ 0xfc ∷ 0x87 ∷ 0x58 ∷ [])

pub test3_round-measured :
    (fl : Float) (alloc : ℕ → List ℕ) (time : ℕ → ℕ) (behind : List ℕ) (t : Terminal) (τ : Scale fl)
    → Allocates alloc
    → let ws = word_pairs unkn0_t0 unkn0_t1 weighed_bits in
      let rx = on_air weighed_bits in
      (test3_round alloc (some b'1') none t
        ≡ ok (
          false,
          record t {
            printed = t.printed ++ (sending (codes "88.8") (bytes ws) weighed_bits ∷ []);
            written = t.written ++ (ws ∷ []);
          },
        ))
      × (starfrit_process fl alloc time (rx ++ behind) (bytes rx) τ (buf_of []) ≡ (
          measured fl (fl.tenths 888) (time τ.times) (record τ { times = τ.times + 1 }) >>= λ τ'.
          ok (τ', buf_of [])))
unfolding test3_round test3_key listen unkn0-Codec
test3_round-measured fl alloc time behind t τ fresh = (
  rw
      (send_bits-words alloc fresh (unkn0-Codec alloc fresh) (sent weighed) 39 (omega arith)
        (omega arith) (omega arith) (codes "88.8") t)
      refl,
  starfrit_process-measured fl alloc time weighed behind τ fresh
      (record {
        trail_lt = omega arith;
        head_lt = omega arith;
        msb_lt = omega arith;
        lsb_lt = omega arith;
      })
      refl (omega arith) weighed_passes,
)
