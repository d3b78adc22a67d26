-- ===== src/Console/Safety.antt =====
-- The Linux client (clients/linux/main.c:68) on a key.
use irbridge.Base.{
  ℕ, ◌*◌, ◌≤◌, ◌<◌, ◌≡◌, refl, ap, Bool, true, false, List, [], ◌∷◌, ◌++◌, Outcome, ok, ◌>>=◌,
  Allocates, length, ◌==◌, if◌then◌else◌, arith,
}
use irbridge.Bitops.Unpacking.{bit_chars}
use irbridge.Decoder.{Encoded}
use irbridge.Decoder.Protocol.{Protocol}
use irbridge.Loopback.Codecs.{Codec, nec-Codec, unkn0-Codec}
use irbridge.Console.Sending.{send_test-words}
use irbridge.Console.{Console, Stepped, send_test, on_key}

-- Code that ends, without a fault, does not leave the loop, and leaves what is shown and the decoder.
abbrev pub Keeps : Console → Outcome Stepped → Type 0
Keeps σ m =
    (after : Console) × (m ≡ ok (false, after))
    × (after.shown ≡ σ.shown)
    × (after.decoder ≡ σ.decoder)

module _ (alloc : ℕ → List ℕ) (fresh : Allocates alloc) where
  send_test-Keeps :
      {p : Protocol} {encode : List ℕ → Outcome Encoded} (codec : Codec p encode) (test : List ℕ)
      (nbbits : ℕ) (σ : Console)
      → 0 < nbbits
      → nbbits ≤ length test * 8
      → Keeps σ (send_test alloc encode test nbbits σ >>= λ τ. ok (false, τ))
  send_test-Keeps codec test nbbits σ pos enough = (
    record σ { sent_words = σ.sent_words ++ (codec.words (bit_chars nbbits test) ∷ []) },
    ap (λ m. m >>= λ τ. ok (false, τ)) (send_test-words alloc codec test nbbits σ fresh pos enough),
    refl,
    refl,
  )

  if-Keeps :
      (σ : Console) (b : Bool) (m n : Outcome Stepped)
      → Keeps σ m
      → Keeps σ n
      → Keeps σ (if b then m else n)
  if-Keeps σ true m n h k = h
  if-Keeps σ false m n h k = k

  -- Every key but `q`.
  pub on_key-Keeps : (c : ℕ) (σ : Console) → (c == b'q') ≡ false → Keeps σ (on_key alloc c σ)
  unfolding on_key
  on_key-Keeps c σ other = rw other (
      if-Keeps σ (c == b'1') _ _
        (send_test-Keeps (nec-Codec alloc fresh) (0x0 ∷ 0xf7 ∷ 0xc0 ∷ 0x3f ∷ []) 32 σ (omega arith)
          (omega arith))
        (if-Keeps σ (c == b'2') _ _
          (send_test-Keeps (nec-Codec alloc fresh) (0x0 ∷ 0xf7 ∷ 0x40 ∷ 0xbf ∷ []) 32 σ
            (omega arith) (omega arith))
          (if-Keeps σ (c == b'3') _ _
            (send_test-Keeps (unkn0-Codec alloc fresh) (0x54 ∷ 0x7f ∷ 0xfc ∷ 0x8c ∷ 0x5c ∷ []) 39 σ
              (omega arith) (omega arith))
            (σ, refl, refl, refl))))
