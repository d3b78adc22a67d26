-- ===== src/Decoder/Drain/Laws.antt =====
-- The draining loop against the frames of the stream.
use mathlib.Core.Path.{subst}
use irbridge.Base.{
  append-nil, ℕ, zero, suc, ◌-◌, ◌^◌, ◌<◌, List, [], ◌∷◌, ◌++◌, Outcome, ok, ◌>>=◌, >>=-assoc,
  >>=-cong, ◌≡◌, refl, ◌∙◌, length, ◌==◌, if◌then◌else◌, arith, Bool, true, false, length-append,
  length-replicate, replicate,
}
use irbridge.Decoder.{DecodeBuf, Decoded, buff_size}
use irbridge.Decoder.Frames.{
  Fits, is_empty, Call, call, Cut, cut, cut-call, call-Fits, call_found, length-call, complete,
}
use irbridge.Decoder.Protocol.{Protocol, buf_of}
use irbridge.Decoder.Refine.{bytes, as_decoded, decode-call}
use irbridge.Decoder.Drain.{handled, drain}

-- The handler's run over the frames, in order.
module _ {S : Type 0} (handle : DecodeBuf → S → Outcome S) where
  unfoldable pub handle_all : List (List ℕ) → S → Outcome S
  handle_all [] σ = ok σ
  handle_all (f ∷ fs) σ = handle (buf_of f) σ >>= handle_all fs

pub length-buf_of : (bits : List ℕ) → Fits bits → length (buf_of bits).buff ≡ buff_size
unfolding buf_of
length-buf_of bits h = omega (
  arith,
  length-append bits (replicate (1024 - length bits) 0),
  length-replicate {A = ℕ} (1024 - length bits) 0,
)

module _ (p : Protocol) {S : Type 0} (handle : DecodeBuf → S → Outcome S) where
  open p use {classify}

  -- Handling the complete frames of a cut leaves the unfinished one in the buffer.
  abbrev pub after_cut : Cut → S → Outcome (S × DecodeBuf)
  after_cut c σ = handle_all handle c.frames σ >>= λ σ'. ok (σ', buf_of c.open_bits)

  after_cut-complete :
      (b : ℕ) (bits : List ℕ) (c : Cut) (σ : S)
      → after_cut (complete (b ∷ bits) c) σ
        ≡ (handle (buf_of (b ∷ bits)) σ >>= λ σ'. after_cut c σ')
  unfolding complete handle_all
  after_cut-complete b bits c σ = >>=-assoc (handle (buf_of (b ∷ bits)) σ) _ _

  -- The rest of the loop's body, after a call of the decoder.
  abbrev go_on : ℕ → Decoded → S × DecodeBuf → Outcome (S × DecodeBuf)
  go_on fuel d r =
      let again = drain p handle fuel d.rest d.len r.1 r.0 in if d.len == 0 then ok r else again

  -- That the loop runs as it should from the words `ws`, if there are any.
  abbrev Drains : ℕ → List ℕ → List ℕ → Type 0
  Drains fuel ws behind =
      (bits : List ℕ) (σ : S)
      → 0 < length ws
      → Fits bits
      → drain p handle fuel (ws ++ behind) (bytes ws) (buf_of bits) σ
        ≡ after_cut (cut classify bits ws) σ

  go_on-after_cut :
      (fuel : ℕ) (found : Bool) (was ws behind bits : List ℕ) (σ : S)
      → Fits bits
      → Drains fuel ws behind
      → go_on fuel
          (as_decoded (record { found = found; bits = was; rest = ws }) behind)
          (σ, buf_of bits)
        ≡ after_cut (cut classify bits ws) σ
  unfolding cut handle_all
  go_on-after_cut fuel found was [] behind bits σ h ih = refl
  go_on-after_cut fuel found was (w ∷ ws) behind bits σ h ih =
      let more : (bytes (w ∷ ws) == 0) ≡ false = ground arith in rw more (ih bits σ (omega arith) h)

  handled-found :
      (b : ℕ) (bits rest behind : List ℕ) (σ : S)
      → Fits (b ∷ bits)
      → handled p handle
          (as_decoded (record { found = true; bits = b ∷ bits; rest = rest }) behind)
          σ
        ≡ (handle (buf_of (b ∷ bits)) σ >>= λ σ'. ok (σ', buf_of []))
  unfolding handled
  handled-found b bits rest behind σ h =
      rw (p.reset_lem (buf_of (b ∷ bits)) (length-buf_of (b ∷ bits) h))

  handled-go_on :
      (fuel : ℕ) (c : Call) (behind : List ℕ) (σ : S)
      → (c.found ≡ true → is_empty c.bits ≡ false)
      → Fits c.bits
      → Drains fuel c.rest behind
      → (handled p handle (as_decoded c behind) σ >>= go_on fuel (as_decoded c behind))
        ≡ after_cut
            (if c.found
              then complete c.bits (cut classify [] c.rest)
              else cut classify c.bits c.rest)
            σ
  handled-go_on fuel c behind σ full h ih = go c.found c.bits full h
    where
      go :
          (found : Bool) (bits : List ℕ)
          → (found ≡ true → is_empty bits ≡ false)
          → Fits bits
          → let c' : Call = record { found = found; bits = bits; rest = c.rest } in
            (handled p handle (as_decoded c' behind) σ >>= go_on fuel (as_decoded c' behind))
            ≡ after_cut
                (if found then complete bits (cut classify [] c.rest) else cut classify bits c.rest)
                σ
      go false bits f h =
          unfold handled in go_on-after_cut fuel false bits c.rest behind bits σ h ih
      go true [] f h = cc (f refl)
      go true (b ∷ bits) f h =
          rw
            (
              handled-found b bits c.rest behind σ h,
              after_cut-complete b bits (cut classify [] c.rest) σ,
            )
            (>>=-assoc (handle (buf_of (b ∷ bits)) σ) _ _
              ∙ >>=-cong (handle (buf_of (b ∷ bits)) σ) _ _
                  (λ σ'. go_on-after_cut fuel true (b ∷ bits) c.rest behind [] σ' (omega arith) ih))

  -- Over a length that is a whole number of words, and with fuel for each word, the loop handles
  -- the complete frames in order and leaves the bits of the last, unfinished one in the buffer.
  pub drain-after_cut :
      (fuel : ℕ) (ws behind bits : List ℕ) (σ : S)
      → length ws < fuel
      → bytes ws < 2 ^ 32
      → Fits bits
      → drain p handle fuel (ws ++ behind) (bytes ws) (buf_of bits) σ
        ≡ after_cut (cut classify bits ws) σ
  unfolding drain
  drain-after_cut zero ws behind bits σ enough size h = absurd (omega arith)
  drain-after_cut (suc fuel) ws behind bits σ enough size h =
      rw (decode-call p ws behind bits size, cut-call classify bits ws)
        (handled-go_on fuel (call classify bits ws) behind σ (call_found classify bits ws)
          (call-Fits classify bits ws h)
          λ bits' σ' some h'.
            drain-after_cut fuel (call classify bits ws).rest behind bits' σ'
              (omega (arith, length-call classify bits ws))
              (omega (arith, length-call classify bits ws)) h')

  -- The same where nothing lies behind the words, with the fuel that the clients give.
  pub drain_all :
      (ws bits : List ℕ) (σ : S)
      → bytes ws < 2 ^ 32
      → Fits bits
      → drain p handle (suc (length ws)) ws (bytes ws) (buf_of bits) σ
        ≡ after_cut (cut classify bits ws) σ
  drain_all ws bits σ size h =
      subst
        (λ l.
          drain p handle (suc (length ws)) l (bytes ws) (buf_of bits) σ
          ≡ after_cut (cut classify bits ws) σ)
        (append-nil ws) (drain-after_cut (suc (length ws)) ws [] bits σ (omega arith) size h)
