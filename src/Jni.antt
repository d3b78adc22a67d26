-- ===== src/Jni.antt =====
-- ircodec/projects/android/jni/ircodec.c: the Java wrappers of the codecs. A Java string is the list
-- of the bytes that `GetStringUTFChars` gives, none of them zero; an object that may be null is an
-- Option. JNI calls on null, and copies out of bounds, are faults.
pub mod Decoding
pub mod Strings
pub mod Log
use irbridge.Base.{
  ℕ, zero, suc, ◌+◌, ◌-◌, ◌*◌, ◌/◌, ◌%◌, ◌^◌, ◌&&◌, Option, none, some, List, [], ◌∷◌, map, Outcome,
  ok, fault, ◌>>=◌, length, take, drop, write, c_string, ltb, leb, ◌==◌, if◌then◌else◌,
}
use irbridge.Bitops.{string2bytes, bytes2string}
use irbridge.Daemon.Words.{words_in, bytes_of}
use irbridge.Decoder.{DecodeBuf, Decoded, Encoded}
use irbridge.Loopback.{words_of}
use irbridge.Nec.{nec_decode, nec_encode, nec_decode_reset}
use irbridge.Unkn0.{unkn0_decode, unkn0_encode, unkn0_decode_reset}

-- The Java class: `len` is an `int` as its 32 bits.
pub record IrBuffer : Type 0 where
  pub buffer : Option (List ℕ)
  pub len : ℕ

-- The elements of a Java array; null has none.
abbrev pub elements : Option (List ℕ) → Outcome (List ℕ)
elements none = fault
elements (some array) = ok array

-- `Set...ArrayRegion(env, result, 0, size, from)` on a new array of `size` elements.
unfoldable pub copy_region : List ℕ → ℕ → Outcome (List ℕ)
copy_region from size = if leb size (length from) then ok (take size from) else fault

-- IRBuffer_read: the copy of the buffer's bytes, and `*size`.
unfoldable pub ir_buffer_read : IrBuffer → Outcome (List ℕ × ℕ)
ir_buffer_read obj = elements obj.buffer >>= λ array. ok (array, obj.len)

-- IRBuffer_write: `from` are the bytes that can be read from `buff`.
unfoldable pub ir_buffer_write : IrBuffer → List ℕ → ℕ → Outcome IrBuffer
ir_buffer_write obj from size = do
  old ← elements obj.buffer
  result ← (if size == 0 then ok [] else copy_region from size)
  ok (record { buffer = some result; len = size })

-- What a decoding wrapper gives back, with the object and the decoder's buffer as they are then.
pub record JavaDecoded : Type 0 where
  pub ret : ℕ
  pub object : IrBuffer
  pub state : DecodeBuf

module _ (decode : List ℕ → ℕ → DecodeBuf → Outcome Decoded) where
  -- `progress_buff` has moved on by the words that the decoder has read.
  unfoldable pub java_decode : IrBuffer → DecodeBuf → Outcome JavaDecoded
  java_decode obj s = do
    buff ← ir_buffer_read obj
    d ← decode (words_in buff.0) buff.1 s
    let read_words = length (words_in buff.0) - length d.rest
    object ← ir_buffer_write obj (drop (read_words * 4) buff.0) d.len
    ok (record { ret = d.ret; object = object; state = d.state })

module _ (encode : List ℕ → Outcome Encoded) where
  -- The stream as a byte array; null for null.
  unfoldable pub java_encode : Option (List ℕ) → Outcome (Option (List ℕ))
  java_encode none = ok none
  java_encode (some text) = encode text >>= λ ir.
      let filled = copy_region (bytes_of (words_of ir.out)) ir.size >>= λ a. ok (some a) in
      if ltb 0 ir.size
      then elim ir.out [ none ↦ ok (some []) | some out ↦ filled ]
      else ok (some [])

unfoldable pub nec_decode_java : IrBuffer → DecodeBuf → Outcome JavaDecoded
nec_decode_java = java_decode nec_decode

unfoldable pub unkn0_decode_java : IrBuffer → DecodeBuf → Outcome JavaDecoded
unkn0_decode_java = java_decode unkn0_decode

unfoldable pub nec_encode_java : (ℕ → List ℕ) → Option (List ℕ) → Outcome (Option (List ℕ))
nec_encode_java alloc = java_encode (nec_encode alloc)

unfoldable pub unkn0_encode_java : (ℕ → List ℕ) → Option (List ℕ) → Outcome (Option (List ℕ))
unkn0_encode_java alloc = java_encode (unkn0_encode alloc)

unfoldable pub nec_reset_java : DecodeBuf → Outcome DecodeBuf
nec_reset_java s = nec_decode_reset s

unfoldable pub unkn0_reset_java : DecodeBuf → Outcome DecodeBuf
unkn0_reset_java s = unkn0_decode_reset s

-- `NewStringUTF` of the decoder's buffer.
unfoldable pub nec_decoded_buff_java : DecodeBuf → Outcome (List ℕ)
nec_decoded_buff_java s = c_string s.buff

unfoldable pub unkn0_decoded_buff_java : DecodeBuf → Outcome (List ℕ)
unkn0_decoded_buff_java s = c_string s.buff

-- `for(i=0; i<count; i++) out2[i] = (jint)out[i];` from index `i`.
unfoldable pub widen : List ℕ → ℕ → List ℕ → Outcome (List ℕ)
widen [] i out2 = ok out2
widen (x ∷ out) i out2 = write out2 i x >>= widen out (suc i)

-- `out2` is allocated as `count` bytes, so that it has room for `count / 4` of the 4-byte `jint`.
unfoldable pub string2bytes_java : (ℕ → List ℕ) → Option (List ℕ) → Outcome (Option (List ℕ))
string2bytes_java alloc none = ok none
string2bytes_java alloc (some text) = string2bytes alloc text >>= λ r.
    let filled = widen (words_of r.out) 0 (alloc (r.count / 4)) >>= λ out2.
    copy_region out2 r.count >>= λ a. ok (some a) in
    if ltb 0 r.count then elim r.out [ none ↦ ok (some []) | some out ↦ filled ] else ok (some [])

-- A `jint` is its 32 bits; the number of bits is not negative.
unfoldable pub bytes2string_java : (ℕ → List ℕ) → Option (List ℕ) → ℕ → Outcome (Option (List ℕ))
bytes2string_java alloc none nbbits = ok none
bytes2string_java alloc (some array) nbbits =
    if length array == 0
    then ok none
    else if nbbits == 0
    then ok none
    else (bytes2string alloc (map (λ x. x % 2 ^ 8) array) nbbits >>= λ str. elim str [
      | none ↦ ok none
      | some s ↦ c_string s >>= λ text. ok (some text)
    ])
