-- ===== src/Jni/Strings.antt =====
-- The wrappers of the bit strings (ircodec/projects/android/jni/ircodec.c:183).
use irbridge.Base.{
  ℕ, suc, ◌+◌, ◌*◌, ◌/◌, ◌%◌, ◌^◌, ◌<◌, ◌≤◌, ◌≡◌, refl, inl, inr, true, false, Bool-cases, some,
  List, [], ◌∷◌, map, ok, fault, length, length-map, length-set, write, Allocates, c_string-append,
  ltb, ◌==◌, arith, set,
}
use irbridge.Bitops.{nb_bytes}
use irbridge.Bitops.Packing.{pack, length-pack, string2bytes-pack}
use irbridge.Bitops.Unpacking.{bit_chars, bytes2string-bit_chars}
use irbridge.Chars.{Bits-IsText, bit_chars-Bits}
use irbridge.Jni.{widen, string2bytes_java, bytes2string_java}

-- Too many elements for the block are written behind it.
widen_overflow :
    (out : List ℕ) (i : ℕ) (out2 : List ℕ)
    → length out2 < i + length out
    → i ≤ length out2
    → widen out i out2 ≡ fault
unfolding widen write
widen_overflow [] i out2 h k = absurd (omega arith)
widen_overflow (x ∷ out) i out2 h k = elim (Bool-cases (ltb i (length out2))) [
  | inl e ↦ rw e (
      widen_overflow out (suc i) (set out2 i x) (omega (arith, length-set out2 i x))
        (ground (arith, length-set out2 i x)))
  | inr e ↦ rw e refl
]

-- With an allocator that gives blocks of the size asked for, the wrapper of `string2bytes` for Java
-- writes behind its block on every string that is not empty.
pub string2bytes_java_overflow :
    (alloc : ℕ → List ℕ) (c : ℕ) (cs : List ℕ)
    → Allocates alloc
    → string2bytes_java alloc (some (c ∷ cs)) ≡ fault
unfolding string2bytes_java
string2bytes_java_overflow alloc c cs fresh =
    let count = nb_bytes (length (c ∷ cs)) in
    let pos : 0 < count = ground arith in
    let some_bytes : ltb 0 count ≡ true = ground arith in
    let over : widen (pack (c ∷ cs)) 0 (alloc (count / 4)) ≡ fault =
      widen_overflow (pack (c ∷ cs)) 0 (alloc (count / 4))
        (omega (arith, fresh (count / 4), length-pack (c ∷ cs))) (omega arith) in
    rw (string2bytes-pack alloc c cs fresh, some_bytes, over) refl

pub bytes2string_java-bit_chars :
    (alloc : ℕ → List ℕ) (array : List ℕ) (nbbits : ℕ)
    → Allocates alloc
    → 0 < nbbits
    → nbbits ≤ length array * 8
    → bytes2string_java alloc (some array) nbbits
      ≡ ok (some (bit_chars nbbits (map (λ x. x % 2 ^ 8) array)))
unfolding bytes2string_java
bytes2string_java-bit_chars alloc array nbbits fresh pos enough =
    let some_bytes : (length array == 0) ≡ false = ground arith in
    let some_bits : (nbbits == 0) ≡ false = ground arith in
    let low : List ℕ = map (λ x. x % 2 ^ 8) array in
    let chars = bit_chars nbbits low in
    rw
      (
        some_bytes,
        some_bits,
        bytes2string-bit_chars alloc low nbbits fresh pos
            (omega (arith, length-map (λ (x : ℕ). x % 2 ^ 8) array)),
        c_string-append chars [] (Bits-IsText chars (bit_chars-Bits low nbbits)),
      )
      refl
