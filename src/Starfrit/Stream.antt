-- ===== src/Starfrit/Stream.antt =====
-- starfrit_process (raspberrypi/irbrgd/starfrit.c:107) over a stream of words.
use irbridge.Base.{
  ℕ, suc, ◌^◌, ◌<◌, List, [], ◌∷◌, ◌++◌, Outcome, ok, ◌>>=◌, >>=-cong, ◌≡◌, refl, length,
  length-append, All, Allocates, arith,
}
use irbridge.Bitops.{nb_bytes}
use irbridge.Bitops.Packing.{pack, string2bytes-pack}
use irbridge.Chars.{c_string-buf_of, Bits-IsText, IsBit}
use irbridge.Decoder.Drain.Chunks.{drain-drain}
use irbridge.Decoder.Drain.Laws.{handle_all, drain-after_cut}
use irbridge.Decoder.Frames.{bit, Fits, cut}
use irbridge.Decoder.Protocol.{buf_of}
use irbridge.Decoder.Refine.{bytes}
use irbridge.FrameBits.{IsFrame, cut-IsFrame}
use irbridge.Starfrit.Floats.{Float}
use irbridge.Starfrit.{Scale, decoded_bytes, on_frame, starfrit_process}
use irbridge.Unkn0.Symbols.{unkn0, unkn0_symbol}

pub unkn0-binary : (w c : ℕ) → unkn0_symbol w ≡ bit c → IsBit c
unfolding unkn0_symbol
unkn0-binary w c e = ground arith

module _ (fl : Float) (alloc : ℕ → List ℕ) (time : ℕ → ℕ) where
  -- What the scale makes of some frames, in order: the packed bytes of each are looked at once.
  abbrev pub weigh_all : List (List ℕ) → Scale fl → Outcome (Scale fl)
  weigh_all [] σ = ok σ
  weigh_all (f ∷ fs) σ =
      decoded_bytes fl alloc time (pack f) (nb_bytes (length f)) σ >>= weigh_all fs

  on_frame-pack :
      (bits : List ℕ) (σ : Scale fl)
      → Allocates alloc
      → IsFrame bits
      → on_frame fl alloc time (buf_of bits) σ
        ≡ decoded_bytes fl alloc time (pack bits) (nb_bytes (length bits)) σ
  unfolding on_frame
  on_frame-pack [] σ fresh h = absurd (omega (arith, h.some_bits))
  on_frame-pack (c ∷ cs) σ fresh h =
      rw
        (
          c_string-buf_of (c ∷ cs) h.fits (Bits-IsText (c ∷ cs) h.chars),
          string2bytes-pack alloc c cs fresh,
        )
        refl

  handle_all-weigh_all :
      (fs : List (List ℕ)) (σ : Scale fl)
      → Allocates alloc
      → All IsFrame fs
      → handle_all (on_frame fl alloc time) fs σ ≡ weigh_all fs σ
  unfolding handle_all
  handle_all-weigh_all [] σ fresh h = refl
  handle_all-weigh_all (f ∷ fs) σ fresh h = rw (on_frame-pack f σ fresh h.0) (
      >>=-cong (decoded_bytes fl alloc time (pack f) (nb_bytes (length f)) σ) _ _
        λ σ'. handle_all-weigh_all fs σ' fresh h.1)

  -- Let a read of whole words, less than 2 ^ 32 bytes of them, come while the decoder holds a
  -- string of bits that fits, with anything in the buffer behind the words. The scale looks once at
  -- the packed bytes of each frame of the stream, in order, and the decoder is left with the bits
  -- of the unfinished frame.
  pub starfrit_process-weigh_all :
      (ws behind bits : List ℕ) (σ : Scale fl)
      → Allocates alloc
      → bytes ws < 2 ^ 32
      → Fits bits
      → All IsBit bits
      → let c = cut unkn0_symbol bits ws in
        starfrit_process fl alloc time (ws ++ behind) (bytes ws) σ (buf_of bits)
        ≡ (weigh_all c.frames σ >>= λ σ'. ok (σ', buf_of c.open_bits))
  unfolding starfrit_process
  starfrit_process-weigh_all ws behind bits σ fresh size h bs =
      rw
        (
          drain-after_cut unkn0 (on_frame fl alloc time) (suc (length (ws ++ behind))) ws behind
              bits σ (omega (arith, length-append ws behind)) size h,
          handle_all-weigh_all (cut unkn0_symbol bits ws).frames σ fresh
              (cut-IsFrame unkn0_symbol unkn0-binary ws bits h bs),
        )
        refl

  -- Two reads, each of whole words and both together of less than 2 ^ 32 bytes, have the effect of
  -- one read of both on the scale and on a decoder whose string of bits fits, wherever in a frame
  -- the stream is divided and whatever lies in the buffer behind each read.
  pub starfrit_process-append :
      (ws vs behind behind' behind'' bits : List ℕ) (σ : Scale fl)
      → bytes (ws ++ vs) < 2 ^ 32
      → Fits bits
      → (starfrit_process fl alloc time (ws ++ behind) (bytes ws) σ (buf_of bits) >>= λ r.
          starfrit_process fl alloc time (vs ++ behind') (bytes vs) r.0 r.1)
        ≡ starfrit_process fl alloc time ((ws ++ vs) ++ behind'') (bytes (ws ++ vs)) σ (buf_of bits)
  unfolding starfrit_process
  starfrit_process-append ws vs behind behind' behind'' bits σ size h =
      drain-drain unkn0 (on_frame fl alloc time) (suc (length (ws ++ behind)))
        (suc (length (vs ++ behind'))) (suc (length ((ws ++ vs) ++ behind''))) ws vs behind behind'
        behind'' bits σ (omega (arith, length-append ws behind))
        (omega (arith, length-append vs behind')) (omega (arith, length-append (ws ++ vs) behind''))
        size h
