-- ===== src/Jni/Decoding.antt =====
-- The decoding wrappers (ircodec/projects/android/jni/ircodec.c:67): what a call leaves in the Java
-- object is what the decoder has not read.
use irbridge.Base.{
  ℕ, zero, suc, ◌+◌, ◌-◌, ◌*◌, ◌^◌, ◌<◌, ◌≤◌, ◌≡◌, refl, sym, ap, ◌∙◌, inl, inr, true, false, some,
  List, [], ◌∷◌, ◌++◌, ok, All, length, length-append, drop, take-append, leb, ◌==◌, if◌then◌else◌,
  arith,
}
use irbridge.Daemon.Words.{words_in, bytes_of, IsWord, length-bytes_of, words_in-bytes_of}
use irbridge.Decoder.Frames.{Symbol, Symbol-cases, keep, Call, call, length-call}
use irbridge.Decoder.Protocol.{Protocol, buf_of}
use irbridge.Decoder.Refine.{bytes, decode-call}
use irbridge.Jni.{
  IrBuffer, JavaDecoded, copy_region, ir_buffer_read, ir_buffer_write, java_decode, nec_decode_java,
  unkn0_decode_java,
}
use irbridge.Nec.Symbols.{nec, nec_symbol}
use irbridge.Unkn0.Symbols.{unkn0, unkn0_symbol}

-- A call leaves the end of its words.
drop-call :
    (classify : ℕ → Symbol) (bits ws : List ℕ) (n : ℕ)
    → n + length (call classify bits ws).rest ≡ length ws
    → drop n ws ≡ (call classify bits ws).rest
unfolding call
drop-call classify bits [] zero e = refl
drop-call classify bits [] (suc n) e = refl
drop-call classify bits (w ∷ ws) zero e = absurd (omega (arith, length-call classify bits (w ∷ ws)))
drop-call classify bits (w ∷ ws) (suc n) e = elim (Symbol-cases (classify w)) [
  | inl g ↦
      let none_read : n ≡ 0 = omega (arith, rw (g, call) at e) in
      rw (g, call) (ap (λ (k : ℕ). drop k ws) none_read)
  | inr (inl g) ↦ rw (g, call) (drop-call classify bits ws n (omega (arith, rw (g, call) at e)))
  | inr (inr (c, g)) ↦
      rw (g, call) (drop-call classify (keep bits c) ws n (omega (arith, rw (g, call) at e)))
]

drop-bytes_of :
    (n : ℕ) (ws tail : List ℕ)
    → n ≤ length ws
    → drop (n * 4) (bytes_of ws ++ tail) ≡ bytes_of (drop n ws) ++ tail
drop-bytes_of zero ws tail h = refl
drop-bytes_of (suc n) [] tail h = absurd (omega arith)
drop-bytes_of (suc n) (w ∷ ws) tail h =
    let four : suc n * 4 ≡ suc (suc (suc (suc (n * 4)))) = omega arith in
    ap (λ (k : ℕ). drop k (bytes_of (w ∷ ws) ++ tail)) four ∙ drop-bytes_of n ws tail (omega arith)

-- The Java object that holds some words.
abbrev pub holding : List ℕ → IrBuffer
holding ws = record { buffer = some (bytes_of ws); len = bytes ws }

write-holding :
    (obj : IrBuffer) (old ws tail : List ℕ)
    → obj.buffer ≡ some old
    → ir_buffer_write obj (bytes_of ws ++ tail) (bytes ws) ≡ ok (holding ws)
unfolding ir_buffer_write copy_region
write-holding obj old [] tail e = rw e refl
write-holding obj old (w ∷ ws) tail e =
    let some_bytes : (bytes (w ∷ ws) == 0) ≡ false = ground arith in
    let enough : leb (bytes (w ∷ ws)) (length (bytes_of (w ∷ ws) ++ tail)) ≡ true =
      ground (arith, length-append (bytes_of (w ∷ ws)) tail, length-bytes_of (w ∷ ws)) in
    rw
      (
        e,
        some_bytes,
        enough,
        take-append (bytes_of (w ∷ ws)) tail (bytes (w ∷ ws)) (sym (length-bytes_of (w ∷ ws))),
      )
      refl

module _ (p : Protocol) where
  java_decode-call :
      (ws tail bits : List ℕ)
      → bytes ws < 2 ^ 32
      → All IsWord ws
      → let c = call p.classify bits ws in
        java_decode p.decode
          (record { buffer = some (bytes_of ws ++ tail); len = bytes ws })
          (buf_of bits)
        ≡ ok (record {
          ret = if c.found then 1 else 0;
          object = holding c.rest;
          state = buf_of c.bits;
        })
  unfolding java_decode ir_buffer_read
  java_decode-call ws tail bits size words =
      let c = call p.classify bits ws in
      let behind = words_in tail in
      let n = length ws - length c.rest in
      let left : length (ws ++ behind) - length (c.rest ++ behind) ≡ n =
        omega (arith, length-append ws behind, length-append c.rest behind) in
      let object : IrBuffer = record { buffer = some (bytes_of ws ++ tail); len = bytes ws } in
      let short = length-call p.classify bits ws in
      rw
        (
          words_in-bytes_of ws tail words,
          decode-call p ws behind bits size,
          left,
          drop-bytes_of n ws tail (omega arith),
          drop-call p.classify bits ws n (omega arith),
          write-holding object (bytes_of ws ++ tail) c.rest tail refl,
        )
        refl

-- Called on a Java object whose buffer starts with some whole words, less than 2 ^ 32 bytes of
-- them, and whose length is theirs, while the decoder holds bits, each of the two decoding wrappers
-- does what `call` does on the symbols of the words, and leaves exactly the unread words in the
-- object.
pub decode_java-call :
    (ws tail bits : List ℕ)
    → bytes ws < 2 ^ 32
    → All IsWord ws
    → let object : IrBuffer = record { buffer = some (bytes_of ws ++ tail); len = bytes ws } in
      let given : Call → JavaDecoded = λ c. record {
        ret = if c.found then 1 else 0;
        object = holding c.rest;
        state = buf_of c.bits;
      } in
      (nec_decode_java object (buf_of bits) ≡ ok (given (call nec_symbol bits ws)))
      × (unkn0_decode_java object (buf_of bits) ≡ ok (given (call unkn0_symbol bits ws)))
unfolding nec_decode_java unkn0_decode_java
decode_java-call ws tail bits size words =
    (java_decode-call nec ws tail bits size words, java_decode-call unkn0 ws tail bits size words)
