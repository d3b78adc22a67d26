-- ===== src/Console/Sending.antt =====
-- What a key of the Linux client sends (clients/linux/main.c:92).
use irbridge.Base.{
  ℕ, ◌*◌, ◌/◌, ◌≤◌, ◌<◌, ◌≡◌, ◌∙◌, ap, List, [], ◌∷◌, ◌++◌, Outcome, ok, Allocates, length,
  take_all, arith,
}
use irbridge.Bitops.Unpacking.{bit_chars}
use irbridge.Console.{Console, write_server, send_test}
use irbridge.Decoder.{Encoded}
use irbridge.Decoder.Protocol.{Protocol}
use irbridge.Decoder.Refine.{bytes}
use irbridge.Loopback.Codecs.{Codec, encodes-samples}

pub send_test-words :
    (alloc : ℕ → List ℕ) {p : Protocol} {encode : List ℕ → Outcome Encoded} (codec : Codec p encode)
    (test : List ℕ) (nbbits : ℕ) (σ : Console)
    → Allocates alloc
    → 0 < nbbits
    → nbbits ≤ length test * 8
    → send_test alloc encode test nbbits σ
      ≡ ok (record σ { sent_words = σ.sent_words ++ (codec.words (bit_chars nbbits test) ∷ []) })
unfolding send_test write_server
send_test-words alloc codec test nbbits σ fresh pos enough =
    let ws = codec.words (bit_chars nbbits test) in
    encodes-samples codec alloc test nbbits (λ text ir. ok (write_server ir σ)) fresh pos enough
    ∙ ap (λ l. ok (record σ { sent_words = σ.sent_words ++ (l ∷ []) }))
        (take_all (bytes ws / 4) ws (omega arith))
