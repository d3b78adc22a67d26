-- ===== src/Starfrit/Unaligned.antt =====
-- starfrit_process (raspberrypi/irbrgd/starfrit.c:107) with a length that is no whole number of
-- words, such as the -1 of a failed `read`.
use irbridge.Base.{
  ℕ, suc, ◌%◌, List, [], ◌∷◌, fault, ◌≡◌, ◌≢◌, length, Ends, Ends->>=, Ends-if, Ends-ok, Ends-fault,
  Ends-read, Ends-c_string, ltb, ◌==◌, arith,
}
use irbridge.Bitops.Ending.{string2bytes-Ends}
use irbridge.Decoder.{DecodeBuf}
use irbridge.Decoder.Drain.Unaligned.{drain-unaligned}
use irbridge.Decoder.Frames.{Fits}
use irbridge.Decoder.Protocol.{buf_of}
use irbridge.Lirc.{lirc_size}
use irbridge.Starfrit.Floats.{Float}
use irbridge.Starfrit.{
  frame_of, check_sum, Client, Effect, Scale, wants, command, path_size, push_all, push_measurement,
  measured, decoded_bytes, on_frame, starfrit_process,
}
use irbridge.Unkn0.Symbols.{unkn0}

frame_of-Ends : (decoded : List ℕ) → Ends (frame_of decoded)
unfolding frame_of
frame_of-Ends d = Ends->>= _ _ (Ends-read d 0) λ a. Ends->>= _ _ (Ends-read d 1) λ b.
    Ends->>= _ _ (Ends-read d 2)
      λ c. Ends->>= _ _ (Ends-read d 3) λ e. Ends->>= _ _ (Ends-read d 4) λ f. Ends-ok _

module _ (fl : Float) where
  push_all-Ends :
      (weight : fl.F) (cs : List (Client fl)) (done : List (Effect fl))
      → Ends (push_all fl weight cs done)
  unfolding push_all
  push_all-Ends weight [] done = Ends-ok done
  push_all-Ends weight (c ∷ cs) done =
      Ends->>= _ _
        (Ends-if (wants fl weight c) _ _
          (Ends-if (ltb (length (command fl c.url weight)) path_size) _ _ (Ends-ok _) Ends-fault)
          (Ends-ok done))
        (push_all-Ends weight cs)

  push_measurement-Ends : (weight : fl.F) (σ : Scale fl) → Ends (push_measurement fl weight σ)
  unfolding push_measurement
  push_measurement-Ends weight σ =
      Ends->>= _ _ (push_all-Ends weight σ.clients _) (λ effects. Ends-ok _)

  measured-Ends : (weight : fl.F) (t : ℕ) (σ : Scale fl) → Ends (measured fl weight t σ)
  unfolding measured
  measured-Ends weight t σ =
      Ends-if (fl.eq _ weight) _ _ (Ends-if _ _ _ (push_measurement-Ends weight _) (Ends-ok _))
        (Ends-ok _)

  module _ (alloc : ℕ → List ℕ) (time : ℕ → ℕ) where
    decoded_bytes-Ends :
        (d : List ℕ) (n : ℕ) (σ : Scale fl) → Ends (decoded_bytes fl alloc time d n σ)
    unfolding decoded_bytes
    decoded_bytes-Ends d n σ =
        Ends-if (n == 5) _ _
          (Ends->>= _ _ (Ends-read d 0) λ d0.
            Ends-if (d0 == 0x54) _ _
              (Ends->>= _ _ (frame_of-Ends d)
                λ f. Ends-if (check_sum f == f.check) _ _ (measured-Ends _ _ _) (Ends-ok σ))
              (Ends-ok σ))
          (Ends-ok σ)

    on_frame-Ends : (s : DecodeBuf) (σ : Scale fl) → Ends (on_frame fl alloc time s σ)
    unfolding on_frame
    on_frame-Ends s σ =
        Ends->>= _ _ (Ends-c_string s.buff)
          λ text. Ends->>= _ _ (string2bytes-Ends alloc text) λ r. decoded_bytes-Ends _ r.count σ

    -- With a length that is no whole number of words, such as the 2 ^ 32 - 1 of a failed `read`,
    -- and a decoder whose bits fit, the loop of `starfrit_process` does not end by itself: whatever
    -- words lie in the buffer, there is a fault, at the latest when it reads behind the buffer.
    pub starfrit_process-unaligned :
        (words bits : List ℕ) (len : ℕ) (σ : Scale fl)
        → len % lirc_size ≢ 0
        → Fits bits
        → starfrit_process fl alloc time words len σ (buf_of bits) ≡ fault
    unfolding starfrit_process
    starfrit_process-unaligned words bits len σ odd h =
        drain-unaligned unkn0 (on_frame fl alloc time) (suc (length words)) words bits len σ
          (omega arith) odd h λ b σ'. on_frame-Ends (buf_of b) σ'
