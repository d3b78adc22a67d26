-- ===== src/Loopback/Codecs.antt =====
-- Encoders and decoders that agree: what is encoded and received is one frame.
use irbridge.Base.{
  c_string, c_string-append, bit_or, Bool-cases, inl, inr, ◌%◌, ◌==◌, ℕ, suc, ◌+◌, ◌*◌, ◌≤◌, ◌<◌,
  some, List, [], ◌∷◌, ◌++◌, ◌>>=◌, >>=-ok, length-append, map, Outcome, ok, ◌≡◌, refl, ◌∙◌, ap,
  length, take, take_all, All, Allocates, arith,
}
use irbridge.Daemon.Words.{IsWord}
use irbridge.Lirc.{pulse_bit, is_pulse, duration}
use irbridge.Bitops.{bytes2string}
use irbridge.Bitops.Unpacking.{bit_chars, length-bit_chars, bytes2string-bit_chars}
use irbridge.Chars.{map-canon, IsBit, Bits-IsText, bit_chars-Bits}
use irbridge.Loopback.{deref}
use irbridge.Decoder.{DecodeBuf, Encoded}
use irbridge.Decoder.Drain.{drain}
use irbridge.Decoder.Drain.Laws.{handle_all, drain-after_cut}
use irbridge.Decoder.Frames.{max_bits, Fits, cut, complete}
use irbridge.Decoder.Protocol.{Protocol, buf_of}
use irbridge.Decoder.Refine.{bytes}
use irbridge.Encoder.{canon, received, word_pairs, length-word_pairs}
use irbridge.Encoder.Reception.{cut-received_frame}
use irbridge.Nec.{nec_encode, nec_t0, nec_t1}
use irbridge.Nec.Encode.{nec_words, nec_encode-nec_words, nec-Reads}
use irbridge.Nec.Symbols.{nec, nec_symbol}
use irbridge.Unkn0.{unkn0_encode, unkn0_t0, unkn0_t1}
use irbridge.Unkn0.Encode.{unkn0_encode-word_pairs, unkn0-Reads}
use irbridge.Unkn0.Symbols.{unkn0, unkn0_symbol}

pub length-received : (ws : List ℕ) (i : ℕ) → length (received i ws) ≡ suc (length ws)
unfolding received
length-received [] i = refl
length-received (w ∷ ws) i = ap suc (length-received ws (i + 1))

-- A duration that still is a word once it is marked as a pulse.
abbrev pub IsMark : ℕ → Type 0
IsMark w = IsWord w × IsWord (bit_or w pulse_bit)

received-Words : (ws : List ℕ) (i : ℕ) → All IsMark ws → All IsWord (received i ws)
unfolding received
received-Words [] i h = (omega arith, tt)
received-Words (w ∷ ws) i h = elim (Bool-cases (i % 2 == 0)) [
  | inl even ↦ (rw even h.0.1, received-Words ws (i + 1) h.1)
  | inr odd ↦ (rw odd h.0.0, received-Words ws (i + 1) h.1)
]

pub word_pairs-Marks :
    (t0 t1 : ℕ) (cs : List ℕ) → IsMark t0 → IsMark t1 → All IsMark (word_pairs t0 t1 cs)
unfolding word_pairs
word_pairs-Marks t0 t1 [] h0 h1 = (h0, tt)
word_pairs-Marks t0 t1 (c ∷ cs) h0 h1 = elim (Bool-cases (c == b'1')) [
  | inl one ↦ (h0, (rw one h1, word_pairs-Marks t0 t1 cs h0 h1))
  | inr zero ↦ (h0, (rw zero h0, word_pairs-Marks t0 t1 cs h0 h1))
]

-- What the encoder and the decoder of one codec have to agree on.
pub record Codec (p : Protocol) (encode : List ℕ → Outcome Encoded) : Type 0 where
  pub words : List ℕ → List ℕ
  pub size : (text : List ℕ) → length (words text) ≤ length text * 2 + 3
  pub marks : (text : List ℕ) → All IsMark (words text)
  pub encodes :
      (c : ℕ) (cs : List ℕ)
      → let ws = words (c ∷ cs) in encode (c ∷ cs) ≡ ok (record { size = bytes ws; out = some ws })
  pub cuts :
      (c : ℕ) (cs : List ℕ)
      → cut p.classify [] (received 0 (words (c ∷ cs)))
        ≡ record { frames = take max_bits (map canon (c ∷ cs)) ∷ []; open_bits = [] }

module _ {p : Protocol} {encode : List ℕ → Outcome Encoded} (codec : Codec p encode) where
  open codec use {words}

  -- A text that is not empty.
  pub encodes-text :
      (text : List ℕ)
      → 0 < length text
      → encode text ≡ ok (record { size = bytes (words text); out = some (words text) })
  encodes-text [] pos = absurd (omega arith)
  encodes-text (c ∷ cs) pos = codec.encodes c cs

  -- Samples as a string of bits, and encoded.
  pub encodes-samples :
      (alloc : ℕ → List ℕ) (test : List ℕ) (nbbits : ℕ) {B : Type 0}
      (next : List ℕ → Encoded → Outcome B)
      → Allocates alloc
      → 0 < nbbits
      → nbbits ≤ length test * 8
      → let text = bit_chars nbbits test in
        let ws = words text in
        (bytes2string alloc test nbbits >>= λ bits.
        deref bits >>= c_string >>= λ text'. encode text' >>= next text')
        ≡ next text (record { size = bytes ws; out = some ws })
  encodes-samples alloc test nbbits next fresh pos enough =
      let text = bit_chars nbbits test in
      let len = length-bit_chars test nbbits enough in
      rw
        (
          bytes2string-bit_chars alloc test nbbits fresh pos enough,
          c_string-append text [] (Bits-IsText text (bit_chars-Bits test nbbits)),
          encodes-text text (omega arith),
        )
        refl

  pub cuts-text :
      (text : List ℕ)
      → 0 < length text
      → Fits text
      → All IsBit text
      → cut p.classify [] (received 0 (words text)) ≡ record { frames = text ∷ []; open_bits = [] }
  cuts-text [] pos fits bits = absurd (omega arith)
  cuts-text (c ∷ cs) pos fits bits =
      codec.cuts c cs
      ∙ ap (λ f. record { frames = f ∷ []; open_bits = [] })
          (ap (take max_bits) (map-canon (c ∷ cs) bits) ∙ take_all max_bits (c ∷ cs) fits)

  pub received-text : (text : List ℕ) → All IsWord (received 0 (words text))
  received-text text = received-Words (words text) 0 (codec.marks text)

  -- Draining what is received of a text handles the text once, whatever lies behind it.
  pub drain-received :
      {S : Type 0} (handle : DecodeBuf → S → Outcome S) (text behind : List ℕ) (σ : S)
      → 0 < length text
      → Fits text
      → All IsBit text
      → let rx = received 0 (words text) in
        drain p handle (suc (length (rx ++ behind))) (rx ++ behind) (bytes rx) (buf_of []) σ
        ≡ (handle (buf_of text) σ >>= λ σ'. ok (σ', buf_of []))
  unfolding handle_all
  drain-received handle text behind σ pos fits bits =
      let rx = received 0 (words text) in
      rw
        (
          drain-after_cut p handle (suc (length (rx ++ behind))) rx behind [] σ
              (omega (arith, length-append rx behind))
              (omega (arith, length-received (words text) 0, codec.size text)) (omega arith),
          cuts-text text pos fits bits,
        )
        (ap (λ m. m >>= λ σ'. ok (σ', buf_of [])) (>>=-ok (handle (buf_of text) σ) _ (λ σ'. refl)))

unfoldable pub nec-Codec : (alloc : ℕ → List ℕ) → Allocates alloc → Codec nec (nec_encode alloc)
unfolding nec_words received nec_symbol is_pulse duration cut complete
nec-Codec alloc fresh = record {
  words = nec_words;
  size = λ text. omega (arith, length-word_pairs nec_t0 nec_t1 text);
  marks = λ text. (
    (omega arith, omega arith),
    (
      (omega arith, omega arith),
      word_pairs-Marks nec_t0 nec_t1 text (omega arith, omega arith) (omega arith, omega arith),
    ),
  );
  encodes = λ c cs. nec_encode-nec_words alloc c cs fresh;
  cuts = λ c cs. cut-received_frame nec_symbol nec_t0 nec_t1 nec-Reads c cs 2 refl;
}

unfoldable pub unkn0-Codec :
    (alloc : ℕ → List ℕ) → Allocates alloc → Codec unkn0 (unkn0_encode alloc)
unkn0-Codec alloc fresh = record {
  words = word_pairs unkn0_t0 unkn0_t1;
  size = λ text. omega (arith, length-word_pairs unkn0_t0 unkn0_t1 text);
  marks = λ text.
      word_pairs-Marks unkn0_t0 unkn0_t1 text (omega arith, omega arith) (omega arith, omega arith);
  encodes = λ c cs. unkn0_encode-word_pairs alloc c cs fresh;
  cuts = λ c cs. cut-received_frame unkn0_symbol unkn0_t0 unkn0_t1 unkn0-Reads c cs 0 refl;
}
