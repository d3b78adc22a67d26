-- ===== src/Unkn0/Reading.antt =====
-- A call of unkn0_decode (ircodec/src/ir_unkn0.c:35), as a step over a stream of symbols.
use irbridge.Base.{ℕ, ◌^◌, ◌<◌, ◌≡◌, List, ◌++◌, ok}
use irbridge.Decoder.Frames.{call}
use irbridge.Decoder.Protocol.{buf_of}
use irbridge.Decoder.Refine.{bytes, as_decoded, decode-call}
use irbridge.Unkn0.{unkn0_decode}
use irbridge.Unkn0.Symbols.{unkn0, unkn0_symbol}

-- Called with the length of some whole words, less than 2 ^ 32 bytes, while its buffer holds bits,
-- `unkn0_decode` reads no word behind them, writes inside its buffer, and does what `call` does on
-- the symbols of the words: it keeps the bits up to the first gap, drops those for which there is
-- no room, and tells whether the gap ends a frame.
pub unkn0_decode-call :
    (ws behind bits : List ℕ)
    → bytes ws < 2 ^ 32
    → unkn0_decode (ws ++ behind) (bytes ws) (buf_of bits)
      ≡ ok (as_decoded (call unkn0_symbol bits ws) behind)
unkn0_decode-call ws behind bits h = decode-call unkn0 ws behind bits h
