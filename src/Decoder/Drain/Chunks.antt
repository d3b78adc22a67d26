-- ===== src/Decoder/Drain/Chunks.antt =====
-- How a stream is divided over reads does not matter to the loop.
use irbridge.Base.{
  ℕ, ◌+◌, ◌^◌, ◌<◌, List, [], ◌∷◌, ◌++◌, Outcome, ◌>>=◌, >>=-assoc, >>=-cong, ◌≡◌, refl, inl, inr,
  sym, ◌∙◌, length, length-append, arith,
}
use irbridge.Decoder.{DecodeBuf}
use irbridge.Decoder.Frames.{
  Symbol, Symbol-cases, Fits, keep, keep-Fits, cut, complete-open, cut-append,
}
use irbridge.Decoder.Protocol.{Protocol, buf_of}
use irbridge.Decoder.Refine.{bytes}
use irbridge.Decoder.Drain.{drain}
use irbridge.Decoder.Drain.Laws.{handle_all, drain-after_cut}

module _ {S : Type 0} (handle : DecodeBuf → S → Outcome S) where
  handle_all-append :
      (fs gs : List (List ℕ)) (σ : S)
      → handle_all handle (fs ++ gs) σ ≡ (handle_all handle fs σ >>= handle_all handle gs)
  unfolding handle_all
  handle_all-append [] gs σ = refl
  handle_all-append (f ∷ fs) gs σ =
      >>=-cong (handle (buf_of f) σ) _ _ (λ σ'. handle_all-append fs gs σ')
      ∙ sym (>>=-assoc (handle (buf_of f) σ) (handle_all handle fs) (handle_all handle gs))

pub open-Fits :
    (classify : ℕ → Symbol) (bits ws : List ℕ) → Fits bits → Fits (cut classify bits ws).open_bits
unfolding cut
open-Fits classify bits [] h = h
open-Fits classify bits (w ∷ ws) h = elim (Symbol-cases (classify w)) [
  | inl e ↦
      rw (e, cut, complete-open bits (cut classify [] ws)) (open-Fits classify [] ws (omega arith))
  | inr (inl e) ↦ rw (e, cut) (open-Fits classify bits ws h)
  | inr (inr (c, e)) ↦ rw (e, cut) (open-Fits classify (keep bits c) ws (keep-Fits bits c h))
]

module _ (p : Protocol) {S : Type 0} (handle : DecodeBuf → S → Outcome S) where
  open p use {classify}

  -- Two reads `ws` and `vs`, each of a whole number of words, have the effect of one read of both,
  -- wherever in a frame the stream is divided and whatever lies in memory behind each read.
  pub drain-drain :
      (n m k : ℕ) (ws vs behind behind' behind'' bits : List ℕ) (σ : S)
      → length ws < n
      → length vs < m
      → length (ws ++ vs) < k
      → bytes (ws ++ vs) < 2 ^ 32
      → Fits bits
      → (drain p handle n (ws ++ behind) (bytes ws) (buf_of bits) σ >>= λ r.
          drain p handle m (vs ++ behind') (bytes vs) r.1 r.0)
        ≡ drain p handle k ((ws ++ vs) ++ behind'') (bytes (ws ++ vs)) (buf_of bits) σ
  drain-drain n m k ws vs behind behind' behind'' bits σ hn hm hk size h =
      let c = cut classify bits ws in
      let fits : bytes ws + bytes vs < 2 ^ 32 = omega (arith, length-append ws vs) in
      rw
        (
          drain-after_cut p handle n ws behind bits σ hn (omega arith) h,
          drain-after_cut p handle k (ws ++ vs) behind'' bits σ hk size h,
          cut-append classify bits ws vs,
          handle_all-append handle c.frames (cut classify c.open_bits vs).frames σ,
        )
        (>>=-assoc (handle_all handle c.frames σ) _ _
          ∙ >>=-cong (handle_all handle c.frames σ) _ _ (λ σ'.
            drain-after_cut p handle m vs behind' c.open_bits σ' hm (omega arith)
              (open-Fits classify bits ws h))
          ∙ sym (>>=-assoc (handle_all handle c.frames σ) _ _))
