-- ===== src/Starfrit/Weigh.antt =====
-- A frame on its way from an encoder to the scale (raspberrypi/irbrgd/starfrit.c:107).
use irbridge.Base.{
  ℕ, ◌+◌, ◌-◌, ◌*◌, ◌%◌, ◌≤◌, ◌<◌, true, List, [], ◌∷◌, ◌++◌, ok, ◌>>=◌, >>=-ok, ◌≡◌, refl, ◌∙◌, ap,
  ap₂, length, take, take_all, All, Allocates, ◌==◌, arith,
}
use irbridge.Bitops.Packing.{pack}
use irbridge.Bitops.RoundTrip.{cut_bits, pack-bit_chars}
use irbridge.Bitops.Unpacking.{bit_chars, length-bit_chars}
use irbridge.Chars.{IsBit, map-canon, bit_chars-Bits}
use irbridge.Decoder.Frames.{max_bits, cut}
use irbridge.Decoder.Protocol.{buf_of}
use irbridge.Decoder.Refine.{bytes}
use irbridge.Encoder.{received, word_pairs, length-word_pairs}
use irbridge.Encoder.Reception.{cut-received_frame}
use irbridge.Loopback.Codecs.{length-received}
use irbridge.Starfrit.Checksum.{IsBytes, check_sum_odd, raw_weight-eq}
use irbridge.Starfrit.Floats.{Float}
use irbridge.Starfrit.Stream.{weigh_all, starfrit_process-weigh_all}
use irbridge.Starfrit.{
  Frame, invert, frame_of, check_sum, Scale, decoded_bytes, measured, starfrit_process,
}
use irbridge.Unkn0.{unkn0_t0, unkn0_t1}
use irbridge.Unkn0.Encode.{unkn0-Reads}
use irbridge.Unkn0.Symbols.{unkn0_symbol}

-- What is received of a string of bits that `unkn0_encode` has encoded.
abbrev pub on_air : List ℕ → List ℕ
on_air text = received 0 (word_pairs unkn0_t0 unkn0_t1 text)

-- The five bytes that a scale sends for a frame; the first stands for a `trail` of 0xAB.
abbrev pub sent : Frame → List ℕ
sent f = 0x54 ∷ (255 - f.head) ∷ (255 - f.msb) ∷ (255 - f.lsb) ∷ (255 - f.check) ∷ []

invert-sub : (x : ℕ) → x < 256 → invert (255 - x) ≡ x
invert-sub x h = omega arith

cut-on_air :
    (text : List ℕ)
    → 0 < length text
    → length text ≤ max_bits
    → All IsBit text
    → cut unkn0_symbol [] (on_air text) ≡ record { frames = text ∷ []; open_bits = [] }
cut-on_air [] pos h bits = absurd (omega arith)
cut-on_air (c ∷ cs) pos h bits =
    cut-received_frame unkn0_symbol unkn0_t0 unkn0_t1 unkn0-Reads c cs 0 refl
    ∙ ap (λ f. record { frames = f ∷ []; open_bits = [] })
        (ap (take max_bits) (map-canon (c ∷ cs) bits) ∙ take_all max_bits (c ∷ cs) h)

pub length-on_air : (text : List ℕ) → length (on_air text) ≡ length text * 2 + 2
length-on_air text = omega (
  arith,
  length-received (word_pairs unkn0_t0 unkn0_t1 text) 0,
  length-word_pairs unkn0_t0 unkn0_t1 text,
)

frame_of-sent : (f : Frame) → IsBytes f → f.trail ≡ 0xab → f.check < 256 → frame_of (sent f) ≡ ok f
unfolding frame_of
frame_of-sent f h t k = ground (
  arith,
  invert-sub f.head h.head_lt,
  invert-sub f.msb h.msb_lt,
  invert-sub f.lsb h.lsb_lt,
  invert-sub f.check k,
)

-- The last byte's lowest bit, which is not sent, is 0, since the checksum is odd.
pack-sent :
    (f : Frame)
    → IsBytes f
    → f.check < 256
    → f.check % 2 ≡ 1
    → pack (bit_chars 39 (sent f)) ≡ sent f
unfolding cut_bits
pack-sent f h k odd =
    pack-bit_chars (sent f) 39 (omega arith) (omega (arith, h.head_lt))
    ∙ ap (λ (y : ℕ). 0x54 ∷ (255 - f.head) ∷ (255 - f.msb) ∷ (255 - f.lsb) ∷ y ∷ []) (omega arith)

module _ (fl : Float) (alloc : ℕ → List ℕ) (time : ℕ → ℕ) where
  decoded_bytes-sent :
      (f : Frame) (σ : Scale fl)
      → IsBytes f
      → f.trail ≡ 0xab
      → f.check < 256
      → check_sum f ≡ f.check
      → decoded_bytes fl alloc time (sent f) 5 σ
        ≡ measured fl
            (fl.tenths (f.msb * 256 + f.lsb))
            (time σ.times)
            (record σ { times = σ.times + 1 })
  unfolding decoded_bytes
  decoded_bytes-sent f σ h t k e =
      let passes : (check_sum f == f.check) ≡ true = ground arith in
      rw (frame_of-sent f h t k, passes, raw_weight-eq f h) refl

  -- The frame that the decoder cuts out of what is received, and what the scale makes of it.
  pub cut-sent :
      (f : Frame) (σ : Scale fl)
      → IsBytes f
      → f.trail ≡ 0xab
      → f.check < 256
      → check_sum f ≡ f.check
      → let c = cut unkn0_symbol [] (on_air (bit_chars 39 (sent f))) in
        (weigh_all fl alloc time c.frames σ
          ≡ measured fl
              (fl.tenths (f.msb * 256 + f.lsb))
              (time σ.times)
              (record σ { times = σ.times + 1 }))
        × (c.open_bits ≡ [])
  cut-sent f σ h t k e =
      let text = bit_chars 39 (sent f) in
      let len : length text ≡ 39 = length-bit_chars (sent f) 39 (omega arith) in
      let odd : f.check % 2 ≡ 1 = omega (arith, check_sum_odd f h) in
      rw
        (
          cut-on_air text (omega arith) (omega arith) (bit_chars-Bits (sent f) 39),
          len,
          pack-sent f h k odd,
        )
        (>>=-ok _ _ (λ _. refl) ∙ decoded_bytes-sent f σ h t k e, refl)

  -- Let a frame be made of bytes, with 0xAB in front and behind it its checksum, which is a byte.
  -- If its 39 bits are encoded and received while the decoder is empty, with anything in the buffer
  -- behind them, the scale takes it for a measurement of `msb * 256 + lsb` tenths of a kilogram at
  -- the time of the next call of `time`, and if that measurement succeeds the decoder is empty
  -- again.
  pub starfrit_process-measured :
      (f : Frame) (behind : List ℕ) (σ : Scale fl)
      → Allocates alloc
      → IsBytes f
      → f.trail ≡ 0xab
      → f.check < 256
      → check_sum f ≡ f.check
      → let rx = on_air (bit_chars 39 (sent f)) in
        starfrit_process fl alloc time (rx ++ behind) (bytes rx) σ (buf_of []) ≡ (
          measured fl
            (fl.tenths (f.msb * 256 + f.lsb))
            (time σ.times)
            (record σ { times = σ.times + 1 })
          >>= λ σ'. ok (σ', buf_of []))
  starfrit_process-measured f behind σ fresh h t k e =
      let text = bit_chars 39 (sent f) in
      let len : length text ≡ 39 = length-bit_chars (sent f) 39 (omega arith) in
      let (weighed, none_open) = cut-sent f σ h t k e in
      starfrit_process-weigh_all fl alloc time (on_air text) behind [] σ fresh
        (omega (arith, length-on_air text)) (omega arith) tt
      ∙ ap₂ (λ m bits. m >>= λ σ'. ok (σ', buf_of bits)) weighed none_open
