-- ===== src/Decoder/Frames.antt =====
-- An abstract view of both decoders (ircodec/src/ir_nec.c, ircodec/src/ir_unkn0.c): a word is a
-- symbol, the state is the string of bits collected so far, and a stream of words is cut into
-- frames by its gaps.
use irbridge.Base.{
  ℕ, ◌-◌, ◌≤◌, Bool, true, false, List, [], ◌∷◌, ◌++◌, ◌≡◌, refl, ◌⊎◌, inl, inr, length,
  length-append, ltb, if◌then◌else◌, arith, not,
}
use irbridge.Decoder.{buff_size}

pub data Symbol : Type 0 where
  gap pulse : Symbol
  bit : ℕ → Symbol

pub Symbol-cases : (s : Symbol) → (s ≡ gap) ⊎ (s ≡ pulse) ⊎ ((c : ℕ) × (s ≡ bit c))
Symbol-cases gap = inl refl
Symbol-cases pulse = inr (inl refl)
Symbol-cases (bit c) = inr (inr (c, refl))

-- The bits that fit: two places of the buffer stay free.
abbrev pub max_bits : ℕ
max_bits = buff_size - 2

abbrev pub Fits : List ℕ → Type 0
Fits bits = length bits ≤ max_bits

unfoldable pub keep : List ℕ → ℕ → List ℕ
keep bits c = if ltb (length bits) max_bits then bits ++ (c ∷ []) else bits

pub keep-Fits : (bits : List ℕ) (c : ℕ) → Fits bits → Fits (keep bits c)
unfolding keep
keep-Fits bits c h = ground (arith, length-append bits (c ∷ []))

abbrev pub is_empty : List ℕ → Bool
is_empty [] = true
is_empty (_ ∷ _) = false

-- One call: whether a frame is complete, the bits, and the words left.
pub record Call : Type 0 where
  pub found : Bool
  pub bits : List ℕ
  pub rest : List ℕ

module _ (classify : ℕ → Symbol) where
  unfoldable pub call : List ℕ → List ℕ → Call
  call bits [] = record { found = false; bits = bits; rest = [] }
  call bits (w ∷ ws) = elim (classify w) [
    | gap ↦ record { found = not (is_empty bits); bits = bits; rest = ws }
    | pulse ↦ call bits ws
    | bit c ↦ call (keep bits c) ws
  ]

-- All frames of a stream, and the bits of the unfinished one.
pub record Cut : Type 0 where
  pub frames : List (List ℕ)
  pub open_bits : List ℕ

-- A frame in front, unless it is empty.
unfoldable pub complete : List ℕ → Cut → Cut
complete [] c = c
complete (b ∷ bits) c = record { frames = (b ∷ bits) ∷ c.frames; open_bits = c.open_bits }

complete-append :
    (bits : List ℕ) (c : Cut) (more : Cut)
    → complete bits (record { frames = c.frames ++ more.frames; open_bits = more.open_bits })
      ≡ record { frames = (complete bits c).frames ++ more.frames; open_bits = more.open_bits }
unfolding complete
complete-append [] c more = refl
complete-append (b ∷ bits) c more = refl

pub complete-open : (bits : List ℕ) (c : Cut) → (complete bits c).open_bits ≡ c.open_bits
unfolding complete
complete-open [] c = refl
complete-open (b ∷ bits) c = refl

module _ (classify : ℕ → Symbol) where
  unfoldable pub cut : List ℕ → List ℕ → Cut
  cut bits [] = record { frames = []; open_bits = bits }
  cut bits (w ∷ ws) = elim (classify w) [
    | gap ↦ complete bits (cut [] ws)
    | pulse ↦ cut bits ws
    | bit c ↦ cut (keep bits c) ws
  ]

  cut-gap :
      (bits ws : List ℕ)
      → complete bits (cut [] ws)
        ≡ (if not (is_empty bits) then complete bits (cut [] ws) else cut bits ws)
  unfolding complete
  cut-gap [] ws = refl
  cut-gap (b ∷ bits) ws = refl

  -- Cutting a stream in two parts gives the same frames.
  pub cut-append :
      (bits ws vs : List ℕ)
      → cut bits (ws ++ vs) ≡ record {
        frames = (cut bits ws).frames ++ (cut (cut bits ws).open_bits vs).frames;
        open_bits = (cut (cut bits ws).open_bits vs).open_bits;
      }
  unfolding cut
  cut-append bits [] vs = refl
  cut-append bits (w ∷ ws) vs = elim (Symbol-cases (classify w)) [
    | inl e ↦ ground (
      arith,
      complete-append bits (cut [] ws) (cut (cut [] ws).open_bits vs),
      complete-open bits (cut [] ws),
      cut-append [] ws vs,
    )
    | inr (inl e) ↦ ground (arith, cut-append bits ws vs)
    | inr (inr (c, e)) ↦ ground (arith, cut-append (keep bits c) ws vs)
  ]

  -- One call, and the cut of what it leaves, give the cut of the whole.
  pub cut-call :
      (bits ws : List ℕ)
      → let c = call classify bits ws in
        cut bits ws ≡ (if c.found then complete c.bits (cut [] c.rest) else cut c.bits c.rest)
  unfolding cut call complete
  cut-call bits [] = refl
  cut-call bits (w ∷ ws) = elim (Symbol-cases (classify w)) [
    | inl e ↦ rw (e, cut, call) (cut-gap bits ws)
    | inr (inl e) ↦ rw (e, cut, call) (cut-call bits ws)
    | inr (inr (c, e)) ↦ rw (e, cut, call) (cut-call (keep bits c) ws)
  ]

  pub call-Fits : (bits ws : List ℕ) → Fits bits → Fits (call classify bits ws).bits
  unfolding call
  call-Fits bits [] h = h
  call-Fits bits (w ∷ ws) h = elim (Symbol-cases (classify w)) [
    | inl e ↦ rw (e, call) h
    | inr (inl e) ↦ rw (e, call) (call-Fits bits ws h)
    | inr (inr (c, e)) ↦ rw (e, call) (call-Fits (keep bits c) ws (keep-Fits bits c h))
  ]

  -- A call takes a word, unless there is none.
  pub length-call : (bits ws : List ℕ) → length (call classify bits ws).rest ≤ length ws - 1
  unfolding call
  length-call bits [] = omega arith
  length-call bits (w ∷ ws) = elim (Symbol-cases (classify w)) [
    | inl e ↦ rw (e, call) (omega arith)
    | inr (inl e) ↦ rw (e, call) (omega (arith, length-call bits ws))
    | inr (inr (c, e)) ↦ rw (e, call) (omega (arith, length-call (keep bits c) ws))
  ]

  -- A frame that is found has bits.
  pub call_found :
      (bits ws : List ℕ)
      → (call classify bits ws).found ≡ true
      → is_empty (call classify bits ws).bits ≡ false
  unfolding call
  call_found bits [] = λ f. cc
  call_found bits (w ∷ ws) = elim (Symbol-cases (classify w)) [
    | inl e ↦ rw (e, call) (λ f. ground arith)
    | inr (inl e) ↦ rw (e, call) (call_found bits ws)
    | inr (inr (c, e)) ↦ rw (e, call) (call_found (keep bits c) ws)
  ]
