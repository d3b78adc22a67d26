-- ===== src/Unkn0/Symbols.antt =====
-- The decoder of ircodec/src/ir_unkn0.c as an instance of `Decoder.Protocol`.
use irbridge.Base.{
  ℕ, suc, ◌&&◌, List, [], ◌∷◌, ok, fault, ◌≡◌, refl, length, ltb, not, if◌then◌else◌, arith,
}
use irbridge.Lirc.{is_pulse, duration, lirc_size, size_sub}
use irbridge.Decoder.{DecodeBuf, buff_size, clear-zeros}
use irbridge.Decoder.Frames.{Symbol, gap, pulse, bit}
use irbridge.Decoder.Protocol.{buf_of, store, dispatch, exhausted, Protocol}
use irbridge.Unkn0.{unkn0_ts, unkn0_td, unkn0_decode_reset, unkn0_store, unkn0_decode}

-- Only a long space ends a frame.
unfoldable pub unkn0_symbol : ℕ → Symbol
unkn0_symbol word =
    if not (is_pulse word) && ltb unkn0_ts (duration word)
    then gap
    else if is_pulse word
    then pulse
    else bit (if ltb unkn0_td (duration word) then b'1' else b'0')

pub unkn0_decode-zero :
    (words : List ℕ) (s : DecodeBuf) → unkn0_decode words 0 s ≡ ok (exhausted words s)
unfolding unkn0_decode
unkn0_decode-zero [] s = refl
unkn0_decode-zero (w ∷ words) s = refl

pub unkn0_decode-nil : (len : ℕ) (s : DecodeBuf) → unkn0_decode [] (suc len) s ≡ fault
unfolding unkn0_decode
unkn0_decode-nil len s = ground arith

pub unkn0_decode-cons :
    (w : ℕ) (words : List ℕ) (len : ℕ) (s : DecodeBuf)
    → unkn0_decode (w ∷ words) (suc len) s
      ≡ dispatch
          (unkn0_symbol w)
          words
          (size_sub (suc len) lirc_size)
          s
          (unkn0_decode words (size_sub (suc len) lirc_size))
unfolding unkn0_decode unkn0_store unkn0_symbol dispatch store
unkn0_decode-cons w words len s = ground arith

pub unkn0_decode_reset_lem :
    (s : DecodeBuf) → length s.buff ≡ buff_size → unkn0_decode_reset s ≡ ok (buf_of [])
unfolding unkn0_decode_reset buf_of
unkn0_decode_reset_lem s h = rw (clear-zeros buff_size s.buff h)

abbrev pub unkn0 : Protocol
unkn0 = record {
  classify = unkn0_symbol;
  decode = unkn0_decode;
  reset = unkn0_decode_reset;
  decode-zero = unkn0_decode-zero;
  decode-nil = unkn0_decode-nil;
  decode-cons = unkn0_decode-cons;
  reset_lem = unkn0_decode_reset_lem;
}
