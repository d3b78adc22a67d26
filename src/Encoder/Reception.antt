-- ===== src/Encoder/Reception.antt =====
-- What a decoder makes of a string that was encoded and received.
use irbridge.Base.{
  ℕ, zero, suc, ◌+◌, ◌%◌, List, [], ◌∷◌, ◌++◌, append_assoc, append-nil, map, ◌≡◌, refl, sym, ◌∙◌,
  true, false, length, length-append, take, ◌==◌, ltb, if◌then◌else◌, bit_or, arith,
}
use irbridge.Lirc.{pulse_bit}
use irbridge.Decoder.Frames.{Symbol, gap, pulse, bit, max_bits, keep, cut, complete}
use irbridge.Encoder.{canon, trailing_gap, received, word_pairs}

pub keep_all : List ℕ → List ℕ → List ℕ
keep_all bits [] = bits
keep_all bits (c ∷ cs) = keep_all (keep bits c) cs

keep_all-take :
    (cs bits : List ℕ) (room : ℕ)
    → length bits + room ≡ max_bits
    → keep_all bits cs ≡ bits ++ take room cs
unfolding keep_all keep
keep_all-take [] bits zero h = sym (append-nil bits)
keep_all-take [] bits (suc n) h = sym (append-nil bits)
keep_all-take (c ∷ cs) bits zero h =
    let full : ltb (length bits) max_bits ≡ false = ground arith in
    rw full (keep_all-take cs bits zero h ∙ rw append-nil refl)
keep_all-take (c ∷ cs) bits (suc n) h =
    let room : ltb (length bits) max_bits ≡ true = ground arith in
    rw room (
      keep_all-take cs (bits ++ (c ∷ [])) n (omega (arith, length-append bits (c ∷ [])))
      ∙ append_assoc bits (c ∷ []) (take n cs))

-- The words of a codec are what its decoder takes them for.
pub record Reads (classify : ℕ → Symbol) (t0 t1 : ℕ) : Type 0 where
  pub mark : classify (bit_or t0 pulse_bit) ≡ pulse
  pub short : classify t0 ≡ bit b'0'
  pub long : classify t1 ≡ bit b'1'
  pub end : classify trailing_gap ≡ gap

module _ (classify : ℕ → Symbol) (t0 t1 : ℕ) (r : Reads classify t0 t1) where
  classify-space : (c : ℕ) → classify (if c == b'1' then t1 else t0) ≡ bit (canon c)
  classify-space c = ground (arith, r.short, r.long)

  cut-received :
      (cs bits : List ℕ) (i : ℕ)
      → i % 2 ≡ 0
      → cut classify bits (received i (word_pairs t0 t1 cs))
        ≡ complete (keep_all bits (map canon cs)) (record { frames = []; open_bits = [] })
  unfolding received word_pairs keep_all cut
  cut-received [] bits i h =
      let even : (i % 2 == 0) ≡ true = ground arith in rw (even, r.mark, cut, r.end)
  cut-received (c ∷ cs) bits i h =
      let even : (i % 2 == 0) ≡ true = ground arith in
      let odd : ((i + 1) % 2 == 0) ≡ false = ground arith in
      rw (even, r.mark, cut, odd, classify-space c)
        (cut-received cs (keep bits (canon c)) (i + 1 + 1) (omega arith))

  -- A string that is encoded and received, from the first bit's pulse on, is one frame: the
  -- string's characters, as many as the buffer holds.
  pub cut-received_frame :
      (c : ℕ) (cs : List ℕ) (i : ℕ)
      → i % 2 ≡ 0
      → cut classify [] (received i (word_pairs t0 t1 (c ∷ cs)))
        ≡ record { frames = take max_bits (map canon (c ∷ cs)) ∷ []; open_bits = [] }
  unfolding complete
  cut-received_frame c cs i h =
      cut-received (c ∷ cs) [] i h ∙ rw (keep_all-take (map canon (c ∷ cs)) [] max_bits refl)
