-- ===== src/TestPrograms/Remote.antt =====
-- What a key of ir-test2 or ir-test3 sends, and what is made of it on the other side
-- (raspberrypi/ir-test2/main.c:81, raspberrypi/ir-test3/main.c:80).
use irbridge.Base.{
  ℕ, ◌*◌, ◌/◌, ◌≤◌, ◌<◌, ◌≡◌, refl, ap, ◌∙◌, Bool, true, false, none, some, List, [], ◌∷◌, ◌++◌,
  Outcome, ok, All, Allocates, length, take, take_all, codes, if◌then◌else◌, arith,
}
use irbridge.Bitops.RoundTrip.{cut_bits, pack-bit_chars}
use irbridge.Bitops.Unpacking.{bit_chars, length-bit_chars}
use irbridge.Chars.{IsBit, bit_chars-Bits}
use irbridge.Daemon.{into}
use irbridge.Daemon.Words.{bytes_of}
use irbridge.Decoder.{Encoded}
use irbridge.Decoder.Frames.{bit, max_bits}
use irbridge.Decoder.Protocol.{Protocol, buf_of}
use irbridge.Decoder.Refine.{bytes}
use irbridge.Encoder.{received}
use irbridge.Loopback.Codecs.{
  Codec, nec-Codec, length-received, encodes-samples, cuts-text, received-text,
}
use irbridge.Loopback.{words_of}
use irbridge.Nec.Encode.{nec_words}
use irbridge.TestPrograms.{
  frame, sending, Terminal, listen, send_bits, test2_key, test1_round, test2_round,
}
use irbridge.TestPrograms.Ending.{nec-binary}
use irbridge.TestPrograms.Listening.{listen-lines}

module _ (alloc : ℕ → List ℕ) (fresh : Allocates alloc) {p : Protocol}
    {encode : List ℕ → Outcome Encoded} (codec : Codec p encode) (test : List ℕ) (nbbits : ℕ)
    (pos : 0 < nbbits) (enough : nbbits ≤ length test * 8) (fits : nbbits ≤ max_bits) where
  pub send_bits-words :
      (name : List ℕ) (t : Terminal)
      → let text = bit_chars nbbits test in
        let ws = codec.words text in
        send_bits alloc encode name test nbbits t
        ≡ ok (record t {
          printed = t.printed ++ (sending name (bytes ws) text ∷ []);
          written = t.written ++ (ws ∷ []);
        })
  unfolding send_bits
  send_bits-words name t =
      let text = bit_chars nbbits test in
      let ws = codec.words text in
      let after : List ℕ → Encoded → Outcome Terminal = λ shown ir. ok (record t {
        printed = t.printed ++ (sending name ir.size shown ∷ []);
        written = t.written ++ (take (ir.size / 4) (words_of ir.out) ∷ []);
      }) in
      encodes-samples codec alloc test nbbits after fresh pos enough
      ∙ ap
          (λ l. ok (record t {
            printed = t.printed ++ (sending name (bytes ws) text ∷ []);
            written = t.written ++ (l ∷ []);
          }))
          (take_all (bytes ws / 4) ws (omega arith))

  listen-received :
      (t : Terminal)
      → ((w c : ℕ) → p.classify w ≡ bit c → IsBit c)
      → All (λ x. x < 256) test
      → t.decoder ≡ buf_of []
      → let text = bit_chars nbbits test in
        let rx = bytes_of (received 0 (codec.words text)) in
        listen alloc p true (some rx) t
        ≡ ok (record t {
          printed = t.printed ++ (frame nbbits text (cut_bits nbbits test) ∷ []);
          buffer = into t.buffer rx;
          decoder = buf_of [];
        })
  listen-received t binary small dec =
      let text = bit_chars nbbits test in
      let ws = codec.words text in
      let rx = received 0 ws in
      let len : length text ≡ nbbits = length-bit_chars test nbbits enough in
      listen-lines alloc fresh true p binary rx [] t
        (omega (arith, length-received ws 0, codec.size text)) (received-text codec text) dec
        (omega arith) tt
      ∙ rw
          (
            cuts-text codec text (omega arith) (omega arith) (bit_chars-Bits test nbbits),
            len,
            pack-bit_chars test nbbits enough small,
          )
          refl

-- The light's keys: 1 switches it on, 2 off.
abbrev pub light_key : Bool → ℕ
light_key on = if on then b'1' else b'2'

abbrev pub light_bytes : Bool → List ℕ
light_bytes on = 0x0 ∷ 0xf7 ∷ (if on then 0xc0 else 0x40) ∷ (if on then 0x3f else 0xbf) ∷ []

-- The words of the light's bytes.
abbrev pub light_words : Bool → List ℕ
light_words on = nec_words (bit_chars 32 (light_bytes on))

abbrev pub light_name : Bool → List ℕ
light_name on = if on then codes "ON" else codes "OFF"

-- With an allocator that gives blocks of the size asked for, the key 1 or 2 of ir-test2, in a round
-- in which nothing is read, writes the words of the four bytes that switch the light on or off to
-- the driver; if ir-test1, its decoder empty, reads these words as they are received, without a
-- key, it prints one line with the 32 bits sent and the four bytes, and its decoder is empty again.
pub test2_round-test1_round :
    (alloc : ℕ → List ℕ) (on : Bool) (t u : Terminal)
    → Allocates alloc
    → u.decoder ≡ buf_of []
    → let text = bit_chars 32 (light_bytes on) in
      let rx = bytes_of (received 0 (light_words on)) in
      (test2_round alloc (some (light_key on)) none t
        ≡ ok (
          false,
          record t {
            printed = t.printed ++ (sending (light_name on) (bytes (light_words on)) text ∷ []);
            written = t.written ++ (light_words on ∷ []);
          },
        ))
      × (test1_round alloc none (some rx) u
          ≡ ok (
            false,
            record u {
              printed = u.printed ++ (frame 32 text (light_bytes on) ∷ []);
              buffer = into u.buffer rx;
              decoder = buf_of [];
            },
          ))
unfolding test2_round test2_key test1_round listen cut_bits nec-Codec
test2_round-test1_round alloc true t u fresh dec = (
  rw
      (send_bits-words alloc fresh (nec-Codec alloc fresh) (light_bytes true) 32 (omega arith)
        (omega arith) (omega arith) (codes "ON") t)
      refl,
  rw
      (listen-received alloc fresh (nec-Codec alloc fresh) (light_bytes true) 32 (omega arith)
        (omega arith) (omega arith) u nec-binary (omega arith) dec)
      refl,
)
test2_round-test1_round alloc false t u fresh dec = (
  rw
      (send_bits-words alloc fresh (nec-Codec alloc fresh) (light_bytes false) 32 (omega arith)
        (omega arith) (omega arith) (codes "OFF") t)
      refl,
  rw
      (listen-received alloc fresh (nec-Codec alloc fresh) (light_bytes false) 32 (omega arith)
        (omega arith) (omega arith) u nec-binary (omega arith) dec)
      refl,
)
