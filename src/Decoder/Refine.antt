-- ===== src/Decoder/Refine.antt =====
-- One call of a decoder (ircodec/src/ir_nec.c:35, ircodec/src/ir_unkn0.c:35) against the abstract
-- view of `Decoder.Frames`.
use irbridge.Base.{
  ℕ, suc, ◌+◌, ◌-◌, ◌*◌, ◌^◌, ◌<◌, List, [], ◌∷◌, ◌++◌, ok, not, Bool-cases, inl, inr, ◌≡◌, refl,
  sym, ◌∙◌, ap, length, replicate, write, write_in, set-append, length-append, append_assoc, ltb,
  if◌then◌else◌, arith,
}
use irbridge.Lirc.{lirc_size, size_sub}
use irbridge.Decoder.{DecodeBuf, Decoded, buff_size}
use irbridge.Decoder.Frames.{Symbol-cases, max_bits, keep, is_empty, Call, call}
use irbridge.Decoder.Protocol.{buf_of, store, dispatch, Protocol}

-- The buffer after a string of `n` bits, `k` places of `size` being free.
zeros-suc :
    (size n : ℕ) → n < size → replicate {A = ℕ} (size - n) 0 ≡ 0 ∷ replicate (size - suc n) 0
zeros-suc size n h = let e : size - n ≡ suc (size - suc n) = omega arith in rw e

write-zeros :
    (size c : ℕ) (bits : List ℕ)
    → length bits < size
    → write (bits ++ replicate (size - length bits) 0) (length bits) c
      ≡ ok ((bits ++ (c ∷ [])) ++ replicate (size - length (bits ++ (c ∷ []))) 0)
write-zeros size c bits h =
    let snoc : length (bits ++ (c ∷ [])) ≡ suc (length bits) =
      omega (arith, length-append bits (c ∷ [])) in
    rw (zeros-suc size (length bits) h, snoc)
      (write_in _ _ c (rw length-append (omega arith))
        ∙ ap ok (set-append bits _ 0 c (length bits) refl ∙ sym (append_assoc bits (c ∷ []) _)))

-- A store keeps the buffer in step with the string of bits, within its bounds.
pub store-keep : (bits : List ℕ) (c : ℕ) → store c (buf_of bits) ≡ ok (buf_of (keep bits c))
unfolding store keep buf_of
store-keep bits c = elim (Bool-cases (ltb (length bits) max_bits)) [
  | inl room ↦
      rw (room, write-zeros buff_size c bits (ground arith))
        (ground (arith, length-append bits (c ∷ [])))
  | inr full ↦ rw full
]

-- The size in bytes of an array of words.
abbrev pub bytes : List ℕ → ℕ
bytes ws = length ws * lirc_size

-- What the code returns where the abstract call gives `c`, with `behind` in memory after the
-- words that the length counts.
abbrev pub as_decoded : Call → List ℕ → Decoded
as_decoded c behind = record {
  ret = if c.found then 1 else 0;
  rest = c.rest ++ behind;
  len = bytes c.rest;
  state = buf_of c.bits;
}

ret-gap :
    (bits : List ℕ)
    → ◌≡◌ {A = ℕ} (if ltb 0 (buf_of bits).idx then 1 else 0) (if not (is_empty bits) then 1 else 0)
unfolding buf_of
ret-gap [] = refl
ret-gap (b ∷ bits) = ground arith

module _ (p : Protocol) where
  open p use {classify, decode}

  decode-word :
      (w : ℕ) (words ws : List ℕ) (s : DecodeBuf)
      → bytes (w ∷ ws) < 2 ^ 32
      → decode (w ∷ words) (bytes (w ∷ ws)) s
        ≡ dispatch (classify w) words (bytes ws) s (decode words (bytes ws))
  decode-word w words ws s h =
      let size : bytes (w ∷ ws) ≡ suc (bytes ws + 3) = omega arith in
      let left : size_sub (suc (bytes ws + 3)) lirc_size ≡ bytes ws = omega arith in
      rw size (p.decode-cons w words (bytes ws + 3) s ∙ rw left refl)

  -- Called with a length that is a whole number of words, a decoder reads none behind them,
  -- writes inside its buffer, and returns what the abstract call gives.
  pub decode-call :
      (ws behind bits : List ℕ)
      → bytes ws < 2 ^ 32
      → decode (ws ++ behind) (bytes ws) (buf_of bits)
        ≡ ok (as_decoded (call classify bits ws) behind)
  unfolding call dispatch
  decode-call [] behind bits h = p.decode-zero behind (buf_of bits)
  decode-call (w ∷ ws) behind bits h =
      decode-word w (ws ++ behind) ws (buf_of bits) h ∙ elim (Symbol-cases (classify w)) [
        | inl e ↦ rw (e, call) (ground (arith, ret-gap bits))
        | inr (inl e) ↦ rw (e, call) (decode-call ws behind bits (omega arith))
        | inr (inr (c, e)) ↦
            rw (e, call, store-keep bits c) (decode-call ws behind (keep bits c) (omega arith))
      ]
