-- ===== src/Loopback/Laws.antt =====
-- The bytes that are sent come back.
use irbridge.Base.{
  ℕ, suc, ◌+◌, ◌*◌, ◌/◌, ◌≤◌, ◌<◌, List, [], ◌∷◌, ◌++◌, Outcome, ok, append-nil, ◌≡◌, refl, sym,
  ◌∙◌, ap, length, All, c_string-append, Allocates, arith,
}
use irbridge.Lirc.{lirc_size}
use irbridge.Bitops.Packing.{pack, string2bytes-pack}
use irbridge.Bitops.RoundTrip.{cut_bits, pack-bit_chars}
use irbridge.Bitops.Unpacking.{bit_chars, length-bit_chars, bytes2string-bit_chars}
use irbridge.Chars.{c_string-buf_of, Bits-IsText, IsBit, bit_chars-Bits}
use irbridge.Decoder.{DecodeBuf, Encoded, buff_size}
use irbridge.Decoder.Drain.{drain}
use irbridge.Decoder.Frames.{max_bits, Fits}
use irbridge.Decoder.Protocol.{Protocol, buf_of}
use irbridge.Decoder.Refine.{bytes}
use irbridge.Encoder.{received}
use irbridge.Loopback.Codecs.{
  Codec, nec-Codec, unkn0-Codec, length-received, encodes-text, drain-received,
}
use irbridge.Loopback.{Printed, print_frame, send, loopback, nec_loopback, unkn0_loopback}
use irbridge.Nec.{nec_encode}
use irbridge.Nec.Symbols.{nec}
use irbridge.Unkn0.{unkn0_encode}
use irbridge.Unkn0.Symbols.{unkn0}

module _ (alloc : ℕ → List ℕ) (fresh : Allocates alloc) where
  -- What is printed for one frame of bits.
  print_frame-bits :
      (text : List ℕ) (out : Printed)
      → 0 < length text
      → Fits text
      → All IsBit text
      → print_frame alloc (buf_of text) out ≡ ok (out ++ ((text, pack text) ∷ []))
  unfolding print_frame
  print_frame-bits [] out pos h bits = absurd (omega arith)
  print_frame-bits (c ∷ cs) out pos h bits =
      rw
        (c_string-buf_of (c ∷ cs) h (Bits-IsText (c ∷ cs) bits), string2bytes-pack alloc c cs fresh)
        refl

module _ (alloc : ℕ → List ℕ) (fresh : Allocates alloc) (p : Protocol)
    (encode : List ℕ → Outcome Encoded) (codec : Codec p encode) where
  send-text :
      (text : List ℕ) (s : DecodeBuf)
      → 0 < length text
      → Fits text
      → All IsBit text
      → length s.buff ≡ buff_size
      → send alloc p encode text s ≡ ok ((text, pack text) ∷ [], buf_of [])
  unfolding send
  send-text text s pos fits bits size =
      let ws = codec.words text in
      let rx = received 0 ws in
      let cir : (bytes ws / lirc_size + 1) * lirc_size ≡ bytes rx =
        omega (arith, length-received ws 0) in
      rw (encodes-text codec text pos, p.reset_lem s size, cir)
        (ap (λ l. drain p (print_frame alloc) (suc (length l)) l (bytes rx) (buf_of []) [])
            (sym (append-nil rx))
          ∙ drain-received codec (print_frame alloc) text [] [] pos fits bits
          ∙ rw (print_frame-bits alloc fresh text [] pos fits bits) refl)

  -- What is sent comes back as one frame, whose string is the bits that were sent and whose bytes
  -- are those of the source, the last one cut to the bits that were sent.
  loopback_lem :
      (test : List ℕ) (nbbits : ℕ) (s : DecodeBuf)
      → 0 < nbbits
      → nbbits ≤ length test * 8
      → nbbits ≤ max_bits
      → All (λ x. x < 256) test
      → length s.buff ≡ buff_size
      → loopback alloc p encode test nbbits s
        ≡ ok ((bit_chars nbbits test, cut_bits nbbits test) ∷ [], buf_of [])
  unfolding loopback
  loopback_lem test nbbits s pos enough fits small size =
      let text = bit_chars nbbits test in
      let len : length text ≡ nbbits = length-bit_chars test nbbits enough in
      let bits : All IsBit text = bit_chars-Bits test nbbits in
      rw (
        bytes2string-bit_chars alloc test nbbits fresh pos enough,
        c_string-append text [] (Bits-IsText text bits),
        send-text text s (omega arith) (omega arith) bits size,
        pack-bit_chars test nbbits enough small,
      )

module _ (alloc : ℕ → List ℕ) (test : List ℕ) (nbbits : ℕ) (s : DecodeBuf) where
  -- `nec` of ircodec/src/main.c gives back what it sends: with an allocator that gives blocks of
  -- the size asked for, test bytes below 256, a number of bits that is positive, no more than the
  -- bytes have and at most 1022, and whatever a decoder buffer of 1024 places held, exactly one
  -- frame is printed; its string is the bits sent, its bytes are the test bytes with the last one
  -- cut to the bits sent, and the decoder is left empty.
  pub nec_loopback_lem :
      Allocates alloc
      → 0 < nbbits
      → nbbits ≤ length test * 8
      → nbbits ≤ max_bits
      → All (λ x. x < 256) test
      → length s.buff ≡ buff_size
      → nec_loopback alloc test nbbits s
        ≡ ok ((bit_chars nbbits test, cut_bits nbbits test) ∷ [], buf_of [])
  unfolding nec_loopback
  nec_loopback_lem fresh =
      loopback_lem alloc fresh nec (nec_encode alloc) (nec-Codec alloc fresh) test nbbits s

  -- `unkn0` of ircodec/src/main.c gives back what it sends: with an allocator that gives blocks of
  -- the size asked for, test bytes below 256, a number of bits that is positive, no more than the
  -- bytes have and at most 1022, and whatever a decoder buffer of 1024 places held, exactly one
  -- frame is printed; its string is the bits sent, its bytes are the test bytes with the last one
  -- cut to the bits sent, and the decoder is left empty.
  pub unkn0_loopback_lem :
      Allocates alloc
      → 0 < nbbits
      → nbbits ≤ length test * 8
      → nbbits ≤ max_bits
      → All (λ x. x < 256) test
      → length s.buff ≡ buff_size
      → unkn0_loopback alloc test nbbits s
        ≡ ok ((bit_chars nbbits test, cut_bits nbbits test) ∷ [], buf_of [])
  unfolding unkn0_loopback
  unkn0_loopback_lem fresh =
      loopback_lem alloc fresh unkn0 (unkn0_encode alloc) (unkn0-Codec alloc fresh) test nbbits s
