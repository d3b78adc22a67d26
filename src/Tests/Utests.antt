-- ===== src/Tests/Utests.antt =====
-- The unit tests of ircodec/src hold of the model.
use irbridge.Base.{◌≡◌, refl, true, ok, write, replicate}
use irbridge.Bitops.{string2bytes, pack_chars, pack_char, bytes2string, unpack_bytes, unpack_byte}
use irbridge.Decoder.{DecodeBuf, clear}
use irbridge.Lirc.{is_pulse, duration}
use irbridge.Nec.{nec_decode, nec_store, nec_decode_reset, nec_encode, nec_fill}
use irbridge.Unkn0.{unkn0_decode, unkn0_store, unkn0_decode_reset, unkn0_encode, unkn0_fill}
use irbridge.Tests.{alloc}
use irbridge.Utest.{strncmp, calls, utest_bitsops}
use irbridge.Utest.Nec.{utest_nec_decode, utest_nec_encode}
use irbridge.Utest.Unkn0.{utest_unkn0_decode, utest_unkn0_encode}

-- The static buffer of a codec.
abbrev fresh_buffer : DecodeBuf
fresh_buffer = record { buff = replicate 1024 0; idx = 0 }

utest_bitsops_passes : utest_bitsops alloc ≡ ok true
unfolding utest_bitsops string2bytes pack_chars pack_char bytes2string unpack_bytes unpack_byte
    write strncmp
utest_bitsops_passes = refl

utest_nec_encode_passes : utest_nec_encode alloc ≡ ok true
unfolding utest_nec_encode nec_encode nec_fill write
utest_nec_encode_passes = refl

utest_unkn0_encode_passes : utest_unkn0_encode alloc ≡ ok true
unfolding utest_unkn0_encode unkn0_encode unkn0_fill write
utest_unkn0_encode_passes = refl

utest_unkn0_decode_passes : utest_unkn0_decode fresh_buffer ≡ ok true
unfolding utest_unkn0_decode unkn0_decode unkn0_store unkn0_decode_reset clear is_pulse duration
    write calls strncmp
utest_unkn0_decode_passes = refl

utest_nec_decode_passes : utest_nec_decode fresh_buffer ≡ ok true
unfolding utest_nec_decode nec_decode nec_store nec_decode_reset clear is_pulse duration write calls
    strncmp
utest_nec_decode_passes = refl
