-- ===== src/Tests/Bindings.antt =====
-- The wrappers for Java on concrete inputs.
use irbridge.Base.{ℕ, ◌≡◌, some, List, [], ◌∷◌, ◌++◌, ok, fault, if◌then◌else◌, codes, arith}
use irbridge.Daemon.Words.{bytes_of}
use irbridge.Decoder.Frames.{Call, call}
use irbridge.Decoder.Protocol.{buf_of}
use irbridge.Decoder.Refine.{bytes}
use irbridge.Jni.{IrBuffer, JavaDecoded, nec_decode_java, unkn0_decode_java, string2bytes_java}
use irbridge.Jni.Decoding.{holding, decode_java-call}
use irbridge.Jni.Strings.{string2bytes_java_overflow}
use irbridge.Nec.Symbols.{nec_symbol}
use irbridge.Unkn0.Symbols.{unkn0_symbol}
use irbridge.Tests.{alloc, alloc-fresh}

-- A bit, a gap, and a word of the next frame; there are more bytes than `len` says.
abbrev some_words : List ℕ
some_words = 0x1000230 ∷ 560 ∷ 77000 ∷ 0x1000230 ∷ []

abbrev object : IrBuffer
object = record { buffer = some (bytes_of some_words ++ (1 ∷ 2 ∷ [])); len = bytes some_words }

abbrev handed : Call → JavaDecoded
handed c = record { ret = if c.found then 1 else 0; object = holding c.rest; state = buf_of c.bits }

decode_java_example :
    (nec_decode_java object (buf_of []) ≡ ok (handed (call nec_symbol [] some_words)))
    × (unkn0_decode_java object (buf_of []) ≡ ok (handed (call unkn0_symbol [] some_words)))
decode_java_example = decode_java-call some_words (1 ∷ 2 ∷ []) [] (omega arith) (omega arith)

string2bytes_java_overflow_example : string2bytes_java alloc (some (codes "10001000")) ≡ fault
string2bytes_java_overflow_example =
    string2bytes_java_overflow alloc b'1' (codes "0001000") alloc-fresh
