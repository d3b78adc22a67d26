-- ===== src/Decoder/Drain/Unaligned.antt =====
-- A length that is no whole number of words: it is stepped past zero and the loop runs out of its
-- buffer.
use irbridge.Base.{
  ℕ, zero, suc, ◌%◌, ◌<◌, false, inl, inr, ◌⊎◌, ◌≢◌, List, [], ◌∷◌, Outcome, ok, fault, out_of_fuel,
  ◌≡◌, refl, length, ◌==◌, ltb, if◌then◌else◌, arith,
}
use irbridge.Lirc.{lirc_size, size_sub}
use irbridge.Decoder.{DecodeBuf, Decoded}
use irbridge.Decoder.Frames.{Symbol-cases, Fits, keep, keep-Fits}
use irbridge.Decoder.Protocol.{Protocol, buf_of, dispatch}
use irbridge.Decoder.Refine.{store-keep}
use irbridge.Decoder.Drain.{handled, drain}
use irbridge.Decoder.Drain.Laws.{length-buf_of}

-- The length is still no whole number of words, and one word less can be read.
record Remains (words : List ℕ) (result : Outcome Decoded) : Type 0 where
  found : ℕ
  bits : List ℕ
  rest : List ℕ
  len : ℕ
  returns : result ≡ ok (record { ret = found; rest = rest; len = len; state = buf_of bits })
  unaligned : len % lirc_size ≢ 0
  shorter : length rest < length words
  fits : Fits bits

module _ (p : Protocol) where
  open p use {classify, decode}

  decode-Remains :
      (words bits : List ℕ) (len : ℕ)
      → len % lirc_size ≢ 0
      → Fits bits
      → (decode words len (buf_of bits) ≡ fault) ⊎ Remains words (decode words len (buf_of bits))
  unfolding dispatch
  decode-Remains words bits zero odd h = absurd (odd refl)
  decode-Remains [] bits (suc len) odd h = inl (p.decode-nil len (buf_of bits))
  decode-Remains (w ∷ words) bits (suc len) odd h =
      rw p.decode-cons (elim (Symbol-cases (classify w)) [
        | inl e ↦ inr (
            rw (e, dispatch)
              (record {
                found = if ltb 0 (buf_of bits).idx then 1 else 0;
                bits = bits;
                rest = words;
                len = left;
                returns = refl;
                unaligned = odd';
                shorter = omega arith;
                fits = h;
              }))
        | inr (inl e) ↦ rw (e, dispatch) (weaken (decode-Remains words bits left odd' h))
        | inr (inr (c, e)) ↦
            rw (e, dispatch, store-keep bits c)
              (weaken (decode-Remains words (keep bits c) left odd' (keep-Fits bits c h)))
      ])
    where
      left : ℕ
      left = size_sub (suc len) lirc_size

      odd' : left % lirc_size ≢ 0
      odd' = omega arith

      weaken :
          {r : Outcome Decoded}
          → (r ≡ fault) ⊎ Remains words r
          → (r ≡ fault) ⊎ Remains (w ∷ words) r
      weaken (inl e) = inl e
      weaken (inr m) = inr (record {
        found = m.found;
        bits = m.bits;
        rest = m.rest;
        len = m.len;
        returns = m.returns;
        unaligned = m.unaligned;
        shorter = omega arith;
        fits = m.fits;
      })

module _ (p : Protocol) {S : Type 0} (handle : DecodeBuf → S → Outcome S) where
  -- What the body of the loop leaves: a fault, or a buffer that holds some bits.
  Leaves : Outcome (S × DecodeBuf) → Type 0
  Leaves r = (r ≡ fault) ⊎ ((σ : S) × (bits : List ℕ) × (r ≡ ok (σ, buf_of bits)) × Fits bits)

  handled-Leaves :
      (found : ℕ) (bits rest : List ℕ) (len : ℕ) (σ : S)
      → Fits bits
      → ((b : List ℕ) (σ : S) → handle (buf_of b) σ ≢ out_of_fuel)
      → Leaves
          (handled p handle (record { ret = found; rest = rest; len = len; state = buf_of bits }) σ)
  unfolding Leaves handled
  handled-Leaves zero bits rest len σ h ends = inr (σ, bits, refl, h)
  handled-Leaves (suc n) bits rest len σ h ends = go (handle (buf_of bits) σ) refl
    where
      go :
          (m : Outcome S)
          → handle (buf_of bits) σ ≡ m
          → Leaves (
              handled p handle
                (record { ret = suc n; rest = rest; len = len; state = buf_of bits })
                σ)
      go (ok σ') e = inr (
        σ',
        [],
        (let more : (suc n == 0) ≡ false = ground arith in
            rw (more, e, p.reset_lem (buf_of bits) (length-buf_of bits h))),
        omega arith,
      )
      go fault e = inl (let more : (suc n == 0) ≡ false = ground arith in rw (more, e))
      go out_of_fuel e = absurd (ends bits σ e)

  -- From any length that is no whole number of words the loop never ends by itself: it reads on
  -- until it leaves the memory that holds the words.
  pub drain-unaligned :
      (fuel : ℕ) (words bits : List ℕ) (len : ℕ) (σ : S)
      → length words < fuel
      → len % lirc_size ≢ 0
      → Fits bits
      → ((b : List ℕ) (σ : S) → handle (buf_of b) σ ≢ out_of_fuel)
      → drain p handle fuel words len (buf_of bits) σ ≡ fault
  unfolding drain Leaves
  drain-unaligned zero words bits len σ enough odd h ends = absurd (omega arith)
  drain-unaligned (suc fuel) words bits len σ enough odd h ends =
      elim (decode-Remains p words bits len odd h) [
        | inl e ↦ rw e
        | inr m ↦ rw m.returns (elim (handled-Leaves m.found m.bits m.rest m.len σ m.fits ends) [
          | inl e ↦ rw e
          | inr (σ', b, e, h') ↦
              let more : (m.len == 0) ≡ false = ground (arith, m.unaligned) in
              rw (e, more)
                (drain-unaligned fuel m.rest b m.len σ' (omega (arith, m.shorter)) m.unaligned h'
                  ends)
        ])
      ]
