-- ===== src/FrameBits.antt =====
-- The frames that the decoders of ircodec/src deliver are strings of '0' and '1' that fit.
use irbridge.Base.{
  ℕ, ◌<◌, Bool-cases, inl, inr, List, [], ◌∷◌, ◌≡◌, length, All, All-append, ltb, arith,
}
use irbridge.Chars.{IsBit}
use irbridge.Decoder.Frames.{
  Symbol, bit, Symbol-cases, Fits, max_bits, keep, keep-Fits, Cut, cut, complete, complete-open,
}

pub record IsFrame (bits : List ℕ) : Type 0 where
  pub some_bits : 0 < length bits
  pub fits : Fits bits
  pub chars : All IsBit bits

keep-Bits : (bits : List ℕ) (c : ℕ) → All IsBit bits → IsBit c → All IsBit (keep bits c)
unfolding keep
keep-Bits bits c h hc = elim (Bool-cases (ltb (length bits) max_bits)) [
  | inl room ↦ rw room (All-append IsBit bits (c ∷ []) h (hc, tt))
  | inr full ↦ rw full h
]

complete-IsFrame :
    (bits : List ℕ) (c : Cut)
    → Fits bits
    → All IsBit bits
    → All IsFrame c.frames
    → All IsFrame (complete bits c).frames
unfolding complete
complete-IsFrame [] c h bs fs = fs
complete-IsFrame (b ∷ bits) c h bs fs =
    (record { some_bits = omega arith; fits = h; chars = bs }, fs)

module _ (classify : ℕ → Symbol) (binary : (w c : ℕ) → classify w ≡ bit c → IsBit c) where
  pub cut-IsFrame :
      (ws bits : List ℕ) → Fits bits → All IsBit bits → All IsFrame (cut classify bits ws).frames
  unfolding cut
  cut-IsFrame [] bits h bs = tt
  cut-IsFrame (w ∷ ws) bits h bs = elim (Symbol-cases (classify w)) [
    | inl e ↦
        rw (e, cut)
          (complete-IsFrame bits (cut classify [] ws) h bs (cut-IsFrame ws [] (omega arith) tt))
    | inr (inl e) ↦ rw (e, cut) (cut-IsFrame ws bits h bs)
    | inr (inr (c, e)) ↦
        rw (e, cut)
          (cut-IsFrame ws (keep bits c) (keep-Fits bits c h) (keep-Bits bits c bs (binary w c e)))
  ]

  -- The bits of the unfinished frame.
  pub cut-Bits : (ws bits : List ℕ) → All IsBit bits → All IsBit (cut classify bits ws).open_bits
  unfolding cut
  cut-Bits [] bits bs = bs
  cut-Bits (w ∷ ws) bits bs = elim (Symbol-cases (classify w)) [
    | inl e ↦ rw (e, cut, complete-open bits (cut classify [] ws)) (cut-Bits ws [] tt)
    | inr (inl e) ↦ rw (e, cut) (cut-Bits ws bits bs)
    | inr (inr (c, e)) ↦
        rw (e, cut) (cut-Bits ws (keep bits c) (keep-Bits bits c bs (binary w c e)))
  ]
