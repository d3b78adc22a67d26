-- ===== src/Tests/Codecs.antt =====
-- The codecs and the bit strings on concrete inputs.
use irbridge.Base.{
  ℕ, ◌≡◌, refl, List, [], ◌∷◌, ◌++◌, map, replicate, none, some, ok, fault, ◌>>=◌, codes, arith,
}
use irbridge.Bitops.{string2bytes, bytes2string}
use irbridge.Bitops.Places.{msb_bytes, string2bytes-msb_bytes}
use irbridge.Bitops.RoundTrip.{cut_bits, bytes2string-string2bytes}
use irbridge.Bitops.Unpacking.{bit_chars, bytes2string-bit_chars}
use irbridge.Decoder.{DecodeBuf}
use irbridge.Decoder.Frames.{call}
use irbridge.Decoder.Protocol.{buf_of}
use irbridge.Decoder.Refine.{bytes, as_decoded}
use irbridge.Encoder.{canon}
use irbridge.Loopback.{nec_loopback, unkn0_loopback}
use irbridge.Loopback.Laws.{nec_loopback_lem, unkn0_loopback_lem}
use irbridge.Loopback.Memory.{codecs-fault}
use irbridge.Nec.{nec_decode, nec_encode}
use irbridge.Unkn0.{unkn0_encode}
use irbridge.Nec.Reading.{nec_decode-call}
use irbridge.Nec.Symbols.{nec_symbol}
use irbridge.Tests.{alloc, alloc-fresh}

abbrev two_bytes : List ℕ
two_bytes = 0x42 ∷ 0x8f ∷ []

abbrev used_buffer : DecodeBuf
used_buffer = record { buff = replicate 1024 5; idx = 12 }

nec_loopback_example :
    nec_loopback alloc two_bytes 12 used_buffer
    ≡ ok ((bit_chars 12 two_bytes, cut_bits 12 two_bytes) ∷ [], buf_of [])
nec_loopback_example =
    nec_loopback_lem alloc two_bytes 12 used_buffer alloc-fresh (omega arith) (omega arith)
      (omega arith) (omega arith, (omega arith, tt)) refl

unkn0_loopback_example :
    unkn0_loopback alloc two_bytes 12 used_buffer
    ≡ ok ((bit_chars 12 two_bytes, cut_bits 12 two_bytes) ∷ [], buf_of [])
unkn0_loopback_example =
    unkn0_loopback_lem alloc two_bytes 12 used_buffer alloc-fresh (omega arith) (omega arith)
      (omega arith) (omega arith, (omega arith, tt)) refl

-- A pulse and a short space, a pulse and a long space, a gap, and a word of the next frame.
abbrev some_words : List ℕ
some_words = 0x1000230 ∷ 560 ∷ 0x1000230 ∷ 1680 ∷ 4000 ∷ 560 ∷ []

nec_decode_example :
    nec_decode (some_words ++ (9 ∷ [])) (bytes some_words) (buf_of (b'1' ∷ []))
    ≡ ok (as_decoded (call nec_symbol (b'1' ∷ []) some_words) (9 ∷ []))
nec_decode_example = nec_decode-call some_words (9 ∷ []) (b'1' ∷ []) (omega arith)

string2bytes_example :
    string2bytes alloc (b'1' ∷ b'0' ∷ b'1' ∷ [])
    ≡ ok (record { out = some (msb_bytes (b'1' ∷ b'0' ∷ b'1' ∷ [])); count = 1 })
string2bytes_example = string2bytes-msb_bytes alloc b'1' (b'0' ∷ b'1' ∷ []) alloc-fresh

high_bits : msb_bytes (codes "101000011") ≡ 161 ∷ 128 ∷ []
unfolding msb_bytes
high_bits = refl

bits_round_trip_example :
    (string2bytes alloc (b'1' ∷ b'x' ∷ b'1' ∷ []) >>= λ r. elim r.out [
      | none ↦ fault
      | some out ↦ bytes2string alloc out 3
    ])
    ≡ ok (some (map canon (b'1' ∷ b'x' ∷ b'1' ∷ []) ++ (0 ∷ [])))
bits_round_trip_example = bytes2string-string2bytes alloc b'1' (b'x' ∷ b'1' ∷ []) alloc-fresh

-- The example in the comment of `bytes2string` (ircodec/src/bitops.c:62).
documented_bits : bit_chars 8 two_bytes ≡ codes "01000010"
unfolding bit_chars
documented_bits = unfold irbridge.Bitops.Unpacking.row_from in refl

codecs-fault_example :
    (nec_encode (λ n. []) (b'1' ∷ b'0' ∷ []) ≡ fault)
    × (unkn0_encode (λ n. []) (b'1' ∷ b'0' ∷ []) ≡ fault)
    × (string2bytes (λ n. []) (b'1' ∷ b'0' ∷ []) ≡ fault)
    × (bytes2string (λ n. []) (0x80 ∷ []) 3 ≡ fault)
codecs-fault_example =
    codecs-fault (λ n. []) (λ n. refl) b'1' (b'0' ∷ []) (0x80 ∷ []) 3 (omega arith)
