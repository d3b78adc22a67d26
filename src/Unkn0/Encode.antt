-- ===== src/Unkn0/Encode.antt =====
-- unkn0_encode (ircodec/src/ir_unkn0.c:64): what it writes, and that its decoder's symbols fit.
use irbridge.Base.{
  ℕ, suc, ◌+◌, ◌*◌, ◌/◌, List, [], ◌∷◌, some, ok, >>=-cong, ◌≡◌, refl, ◌∙◌, false, length, write,
  ◌==◌, if◌then◌else◌, Allocates, arith,
}
use irbridge.Lirc.{lirc_size, is_pulse, duration}
use irbridge.Decoder.Refine.{bytes}
use irbridge.Encoder.{word_pairs, length-word_pairs, fill, fill-then}
use irbridge.Encoder.Reception.{Reads}
use irbridge.Unkn0.{unkn0_t0, unkn0_t1, unkn0_fill, unkn0_encode}
use irbridge.Unkn0.Symbols.{unkn0_symbol}

unkn0_fill-fill :
    (cs : List ℕ) (n : ℕ) (out : List ℕ) → unkn0_fill cs n out ≡ fill unkn0_t0 unkn0_t1 cs n out
unfolding unkn0_fill fill
unkn0_fill-fill [] n out = refl
unkn0_fill-fill (c ∷ cs) n out = >>=-cong (write out n unkn0_t0) _ _ λ out'.
    >>=-cong (write out' (n + 1) (if c == b'1' then unkn0_t1 else unkn0_t0)) _ _
      λ out''. unkn0_fill-fill cs (n + 2) out''

-- With an allocator that gives blocks of the size asked for, `unkn0_encode` of a string that is not
-- empty writes inside its block and returns two words for each character and the last pulse, with
-- their size in bytes, whatever the block held.
pub unkn0_encode-word_pairs :
    (alloc : ℕ → List ℕ) (c : ℕ) (cs : List ℕ)
    → Allocates alloc
    → unkn0_encode alloc (c ∷ cs) ≡ (
        let ws = word_pairs unkn0_t0 unkn0_t1 (c ∷ cs) in
        ok (record { size = bytes ws; out = some ws }))
unfolding unkn0_encode
unkn0_encode-word_pairs alloc c cs fresh =
    let size = (suc (length cs) * 2 + 1) * lirc_size in
    let block = alloc (size / lirc_size) in
    let some_bits : (suc (length cs) == 0) ≡ false = ground arith in
    let room : length block ≡ suc (length cs) * 2 + 1 = fresh (size / lirc_size) ∙ omega arith in
    rw (some_bits, unkn0_fill-fill (c ∷ cs) 0 block)
      (fill-then unkn0_t0 unkn0_t1 (c ∷ cs) [] block 0
          (λ ws. ok (record { size = size; out = some ws })) refl room
        ∙ rw length-word_pairs)

pub unkn0-Reads : Reads unkn0_symbol unkn0_t0 unkn0_t1
unfolding unkn0_symbol is_pulse duration
unkn0-Reads = record { mark = refl; short = refl; long = refl; end = refl }
