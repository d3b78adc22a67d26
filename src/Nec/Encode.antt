-- ===== src/Nec/Encode.antt =====
-- nec_encode (ircodec/src/ir_nec.c:64): what it writes, and that its decoder's symbols fit.
use irbridge.Base.{
  ℕ, suc, ◌+◌, ◌*◌, ◌/◌, List, [], ◌∷◌, some, Outcome, ok, ◌>>=◌, >>=-cong, ◌≡◌, refl, ◌∙◌, ap,
  false, length, write, write-append, ◌==◌, if◌then◌else◌, Allocates, arith,
}
use irbridge.Lirc.{lirc_size, is_pulse, duration}
use irbridge.Decoder.{Encoded}
use irbridge.Decoder.Refine.{bytes}
use irbridge.Encoder.{word_pairs, length-word_pairs, fill, fill-then}
use irbridge.Encoder.Reception.{Reads}
use irbridge.Nec.{nec_t0, nec_t1, nec_thead_pulse, nec_thead_space, nec_fill, nec_encode}
use irbridge.Nec.Symbols.{nec_symbol}

-- The words of a frame: a long pulse and a long space, then the string.
unfoldable pub nec_words : List ℕ → List ℕ
nec_words text = nec_thead_pulse ∷ nec_thead_space ∷ word_pairs nec_t0 nec_t1 text

nec_fill-fill :
    (cs : List ℕ) (n : ℕ) (out : List ℕ) → nec_fill cs n out ≡ fill nec_t0 nec_t1 cs n out
unfolding nec_fill fill
nec_fill-fill [] n out = refl
nec_fill-fill (c ∷ cs) n out = >>=-cong (write out n nec_t0) _ _ λ out'.
    >>=-cong (write out' (n + 1) (if c == b'1' then nec_t1 else nec_t0)) _ _
      λ out''. nec_fill-fill cs (n + 2) out''

abbrev give : ℕ → List ℕ → Outcome Encoded
give size ws = ok (record { size = size; out = some ws })

-- The loop behind the two words of the header.
nec_body :
    (c : ℕ) (cs block : List ℕ) (size : ℕ)
    → length block ≡ suc (length cs) * 2 + 3
    → (write block 0 nec_thead_pulse >>= λ out. write out 1 nec_thead_space >>= λ out'.
        nec_fill (c ∷ cs) 2 out' >>= λ r. write r.0 r.1 nec_t0 >>= give size)
      ≡ ok (record { size = size; out = some (nec_words (c ∷ cs)) })
unfolding nec_words
nec_body c cs [] size h = absurd (omega arith)
nec_body c cs (j ∷ []) size h = absurd (omega arith)
nec_body c cs (j ∷ k ∷ block) size h =
    rw
      (
        write-append [] (k ∷ block) j nec_thead_pulse 0 refl,
        write-append (nec_thead_pulse ∷ []) block k nec_thead_space 1 refl,
        nec_fill-fill (c ∷ cs) 2 (nec_thead_pulse ∷ nec_thead_space ∷ block),
      )
      (fill-then nec_t0 nec_t1 (c ∷ cs) (nec_thead_pulse ∷ nec_thead_space ∷ []) block 2 (give size)
        refl (omega arith))

-- With an allocator that gives blocks of the size asked for, `nec_encode` of a string that is not
-- empty writes inside its block and returns the header, two words for each character and the last
-- pulse, with their size in bytes, whatever the block held.
pub nec_encode-nec_words :
    (alloc : ℕ → List ℕ) (c : ℕ) (cs : List ℕ)
    → Allocates alloc
    → nec_encode alloc (c ∷ cs)
      ≡ (let ws = nec_words (c ∷ cs) in ok (record { size = bytes ws; out = some ws }))
unfolding nec_encode nec_words
nec_encode-nec_words alloc c cs fresh =
    let size = (suc (length cs) * 2 + 2 + 1) * lirc_size in
    let some_bits : (suc (length cs) == 0) ≡ false = ground arith in
    let room : length (alloc (size / lirc_size)) ≡ suc (length cs) * 2 + 3 =
      fresh (size / lirc_size) ∙ omega arith in
    rw some_bits (
      nec_body c cs (alloc (size / lirc_size)) size room
      ∙ ap (λ (n : ℕ). give n (nec_words (c ∷ cs)))
          (omega (arith, length-word_pairs nec_t0 nec_t1 (c ∷ cs))))

pub nec-Reads : Reads nec_symbol nec_t0 nec_t1
unfolding nec_symbol is_pulse duration
nec-Reads = record { mark = refl; short = refl; long = refl; end = refl }
