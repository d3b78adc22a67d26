-- ===== src/Console/Weight.antt =====
-- The key 3 of the Linux client against the scale of the daemon.
use irbridge.Base.{ℕ, ◌+◌, ◌≡◌, refl, false, List, [], ◌∷◌, ◌++◌, ok, ◌>>=◌, Allocates, arith}
use irbridge.Bitops.Unpacking.{bit_chars}
use irbridge.Decoder.Protocol.{buf_of}
use irbridge.Decoder.Refine.{bytes}
use irbridge.Encoder.{received, word_pairs}
use irbridge.Loopback.Codecs.{unkn0-Codec}
use irbridge.Starfrit.{Frame, Scale, check_sum, measured, starfrit_process}
use irbridge.Starfrit.Floats.{Float}
use irbridge.Starfrit.Weigh.{starfrit_process-measured}
use irbridge.Unkn0.{unkn0_t0, unkn0_t1}
use irbridge.Console.Sending.{send_test-words}
use irbridge.Console.{Console, on_key}

-- 88.3 kg.
abbrev pub heavy : Frame
heavy = record { trail = 0xab; head = 0x80; msb = 0x03; lsb = 0x73; check = 0xa3 }

pub heavy_passes : check_sum heavy ≡ 0xa3
unfolding check_sum
heavy_passes = refl

abbrev pub weight_bytes : List ℕ
weight_bytes = 0x54 ∷ 0x7f ∷ 0xfc ∷ 0x8c ∷ 0x5c ∷ []

-- What the key 3 sends.
abbrev pub weight_words : List ℕ
weight_words = word_pairs unkn0_t0 unkn0_t1 (bit_chars 39 weight_bytes)

pub on_key-weight :
    (alloc : ℕ → List ℕ) (σ : Console)
    → Allocates alloc
    → on_key alloc b'3' σ
      ≡ ok (false, record σ { sent_words = σ.sent_words ++ (weight_words ∷ []) })
unfolding on_key unkn0-Codec
on_key-weight alloc σ fresh =
    rw
      (send_test-words alloc (unkn0-Codec alloc fresh) weight_bytes 39 σ fresh (omega arith)
        (omega arith))
      refl

-- With an allocator that gives blocks of the size asked for, the key 3 of the Linux client sends
-- the words of its test bytes; if these words are received while the decoder is empty, the scale
-- takes them for a measurement of 88.3 kg at the time of the next call of `time`, and if that
-- measurement succeeds the decoder is empty again.
pub on_key-measured :
    (fl : Float) (alloc : ℕ → List ℕ) (time : ℕ → ℕ) (behind : List ℕ) (σ : Console) (τ : Scale fl)
    → Allocates alloc
    → let rx = received 0 weight_words in
      (on_key alloc b'3' σ
        ≡ ok (false, record σ { sent_words = σ.sent_words ++ (weight_words ∷ []) }))
      × (starfrit_process fl alloc time (rx ++ behind) (bytes rx) τ (buf_of []) ≡ (
          measured fl (fl.tenths 883) (time τ.times) (record τ { times = τ.times + 1 }) >>= λ τ'.
          ok (τ', buf_of [])))
on_key-measured fl alloc time behind σ τ fresh = (
  on_key-weight alloc σ fresh,
  starfrit_process-measured fl alloc time heavy behind τ fresh
      (record {
        trail_lt = omega arith;
        head_lt = omega arith;
        msb_lt = omega arith;
        lsb_lt = omega arith;
      })
      refl (omega arith) heavy_passes,
)
