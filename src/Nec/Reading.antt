-- ===== src/Nec/Reading.antt =====
-- A call of nec_decode (ircodec/src/ir_nec.c:35), as a step over a stream of symbols.
use irbridge.Base.{ℕ, ◌^◌, ◌<◌, ◌≡◌, List, ◌++◌, ok}
use irbridge.Decoder.Frames.{call}
use irbridge.Decoder.Protocol.{buf_of}
use irbridge.Decoder.Refine.{bytes, as_decoded, decode-call}
use irbridge.Nec.{nec_decode}
use irbridge.Nec.Symbols.{nec, nec_symbol}

-- Called with the length of some whole words, less than 2 ^ 32 bytes, while its buffer holds bits,
-- `nec_decode` reads no word behind them, writes inside its buffer, and does what `call` does on
-- the symbols of the words: it keeps the bits up to the first gap, drops those for which there is
-- no room, and tells whether the gap ends a frame.
pub nec_decode-call :
    (ws behind bits : List ℕ)
    → bytes ws < 2 ^ 32
    → nec_decode (ws ++ behind) (bytes ws) (buf_of bits)
      ≡ ok (as_decoded (call nec_symbol bits ws) behind)
nec_decode-call ws behind bits h = decode-call nec ws behind bits h
