-- ===== src/Nec/Symbols.antt =====
-- The NEC decoder of ircodec/src/ir_nec.c as an instance of `Decoder.Protocol`.
use irbridge.Base.{ℕ, suc, List, [], ◌∷◌, ok, fault, ◌≡◌, refl, length, ltb, if◌then◌else◌, arith}
use irbridge.Lirc.{is_pulse, duration, lirc_size, size_sub}
use irbridge.Decoder.{DecodeBuf, buff_size, clear-zeros}
use irbridge.Decoder.Frames.{Symbol, gap, pulse, bit}
use irbridge.Decoder.Protocol.{buf_of, store, dispatch, exhausted, Protocol}
use irbridge.Nec.{nec_ts, nec_td, nec_decode_reset, nec_store, nec_decode}

-- Any long level ends a frame, a pulse too.
unfoldable pub nec_symbol : ℕ → Symbol
nec_symbol word =
    if ltb nec_ts (duration word)
    then gap
    else if is_pulse word
    then pulse
    else bit (if ltb nec_td (duration word) then b'1' else b'0')

pub nec_decode-zero :
    (words : List ℕ) (s : DecodeBuf) → nec_decode words 0 s ≡ ok (exhausted words s)
unfolding nec_decode
nec_decode-zero [] s = refl
nec_decode-zero (w ∷ words) s = refl

pub nec_decode-nil : (len : ℕ) (s : DecodeBuf) → nec_decode [] (suc len) s ≡ fault
unfolding nec_decode
nec_decode-nil len s = ground arith

pub nec_decode-cons :
    (w : ℕ) (words : List ℕ) (len : ℕ) (s : DecodeBuf)
    → nec_decode (w ∷ words) (suc len) s
      ≡ dispatch
          (nec_symbol w)
          words
          (size_sub (suc len) lirc_size)
          s
          (nec_decode words (size_sub (suc len) lirc_size))
unfolding nec_decode nec_store nec_symbol dispatch store
nec_decode-cons w words len s = ground arith

pub nec_decode_reset_lem :
    (s : DecodeBuf) → length s.buff ≡ buff_size → nec_decode_reset s ≡ ok (buf_of [])
unfolding nec_decode_reset buf_of
nec_decode_reset_lem s h = rw (clear-zeros buff_size s.buff h)

abbrev pub nec : Protocol
nec = record {
  classify = nec_symbol;
  decode = nec_decode;
  reset = nec_decode_reset;
  decode-zero = nec_decode-zero;
  decode-nil = nec_decode-nil;
  decode-cons = nec_decode-cons;
  reset_lem = nec_decode_reset_lem;
}
