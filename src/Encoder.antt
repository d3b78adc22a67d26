-- ===== src/Encoder.antt =====
-- What the encoders of ircodec/src/ir_nec.c and ircodec/src/ir_unkn0.c share, and the reception
-- that ircodec/src/main.c simulates.
pub mod Reception
use irbridge.Base.{
  ℕ, zero, suc, ◌+◌, ◌-◌, ◌*◌, ◌%◌, ◌≤◌, ◌<◌, List, [], ◌∷◌, ◌++◌, append_assoc, Outcome, ok, ◌>>=◌,
  >>=-assoc, ◌≡◌, refl, sym, ◌∙◌, ap, length, length-append, write, write-append, ◌==◌,
  if◌then◌else◌, bit_or, arith,
}
use irbridge.Lirc.{pulse_bit}

-- The character that a decoder will give for the character `c` of an encoded string.
abbrev pub canon : ℕ → ℕ
canon c = if c == b'1' then b'1' else b'0'

-- The space that ends a received frame.
abbrev pub trailing_gap : ℕ
trailing_gap = 77000

-- `for (i = 0; i < cir; i++) { ir2[i] = ir[i]; if (i % 2 == 0) ir2[i] |= PULSE_BIT; }`
-- `ir2[cir] = 77000;`
unfoldable pub received : ℕ → List ℕ → List ℕ
received i [] = trailing_gap ∷ []
received i (w ∷ ws) = (if i % 2 == 0 then bit_or w pulse_bit else w) ∷ received (i + 1) ws

module _ (t0 t1 : ℕ) where
  -- The words of a string: a pulse and a space for each character, and a last pulse.
  unfoldable pub word_pairs : List ℕ → List ℕ
  word_pairs [] = t0 ∷ []
  word_pairs (c ∷ cs) = t0 ∷ (if c == b'1' then t1 else t0) ∷ word_pairs cs

  -- The loop of an encoder, and the last pulse.
  unfoldable pub fill : List ℕ → ℕ → List ℕ → Outcome (List ℕ × ℕ)
  fill [] n out = ok (out, n)
  fill (c ∷ cs) n out = do
    out ← write out n t0
    out ← write out (n + 1) (if c == b'1' then t1 else t0)
    fill cs (n + 2) out

  pub length-word_pairs : (cs : List ℕ) → length (word_pairs cs) ≡ length cs * 2 + 1
  unfolding word_pairs
  length-word_pairs [] = refl
  length-word_pairs (c ∷ cs) = omega (arith, length-word_pairs cs)

  two_writes :
      (done junk : List ℕ) (j k v w n : ℕ) {B : Type 0} (next : List ℕ → Outcome B)
      → n ≡ length done
      → (write (done ++ (j ∷ k ∷ junk)) n v >>= λ out. write out (n + 1) w >>= next)
        ≡ next ((done ++ (v ∷ w ∷ [])) ++ junk)
  two_writes done junk j k v w n next e =
      let place : n + 1 ≡ length (done ++ (v ∷ [])) = omega (arith, length-append done (v ∷ [])) in
      rw
        (
          write-append done (k ∷ junk) j v n e,
          ← append_assoc done (v ∷ []) (k ∷ junk),
          write-append (done ++ (v ∷ [])) junk k w (n + 1) place,
        )
        (ap next (simp append_assoc))

  -- Filling a block of the right size writes each of its places once, whatever it held.
  pub fill-word_pairs :
      (cs done junk : List ℕ) (n : ℕ)
      → n ≡ length done
      → length junk ≡ length cs * 2 + 1
      → (fill cs n (done ++ junk) >>= λ r. write r.0 r.1 t0) ≡ ok (done ++ word_pairs cs)
  unfolding fill word_pairs
  fill-word_pairs [] done [] n e h = absurd (omega arith)
  fill-word_pairs [] done (j ∷ []) n e h = write-append done [] j t0 n e
  fill-word_pairs [] done (j ∷ k ∷ junk) n e h = absurd (omega arith)
  fill-word_pairs (c ∷ cs) done [] n e h = absurd (omega arith)
  fill-word_pairs (c ∷ cs) done (j ∷ []) n e h = absurd (omega arith)
  fill-word_pairs (c ∷ cs) done (j ∷ k ∷ junk) n e h =
      let space = if c == b'1' then t1 else t0 in
      let done' = done ++ (t0 ∷ space ∷ []) in
      ap (λ m. m >>= λ r. write r.0 r.1 t0)
        (two_writes done junk j k t0 space n (λ out. fill cs (n + 2) out) e)
      ∙ fill-word_pairs cs done' junk (n + 2) (omega (arith, length-append done (t0 ∷ space ∷ [])))
          (omega arith)
      ∙ ap ok (append_assoc done (t0 ∷ space ∷ []) (word_pairs cs))

  pub fill-then :
      (cs done junk : List ℕ) (n : ℕ) {B : Type 0} (next : List ℕ → Outcome B)
      → n ≡ length done
      → length junk ≡ length cs * 2 + 1
      → (fill cs n (done ++ junk) >>= λ r. write r.0 r.1 t0 >>= next) ≡ next (done ++ word_pairs cs)
  fill-then cs done junk n next e h =
      sym (>>=-assoc (fill cs n (done ++ junk)) (λ r. write r.0 r.1 t0) next)
      ∙ ap (λ m. m >>= next) (fill-word_pairs cs done junk n e h)
