-- ===== src/Daemon/Words.antt =====
-- The buffer of the main loop, as bytes and as the words that the decoders read from it. The
-- machine is little-endian.
use irbridge.Base.{
  ℕ, ◌+◌, ◌*◌, ◌/◌, ◌%◌, ◌^◌, ◌<◌, ◌≡◌, refl, ap₂, List, [], ◌∷◌, ◌++◌, All, length, arith,
}
use irbridge.Decoder.Refine.{bytes}

-- The words in a buffer of bytes; less than four bytes at its end are no word.
abbrev pub words_in : List ℕ → List ℕ
words_in (a ∷ b ∷ c ∷ d ∷ rest) = (a + b * 2 ^ 8 + c * 2 ^ 16 + d * 2 ^ 24) ∷ words_in rest
words_in (a ∷ b ∷ c ∷ []) = []
words_in (a ∷ b ∷ []) = []
words_in (a ∷ []) = []
words_in [] = []

-- The bytes of some words.
abbrev pub bytes_of : List ℕ → List ℕ
bytes_of [] = []
bytes_of (w ∷ ws) =
    (w % 2 ^ 8) ∷ (w / 2 ^ 8 % 2 ^ 8) ∷ (w / 2 ^ 16 % 2 ^ 8) ∷ (w / 2 ^ 24 % 2 ^ 8) ∷ bytes_of ws

abbrev pub IsWord : ℕ → Type 0
IsWord w = w < 2 ^ 32

pub length-bytes_of : (ws : List ℕ) → length (bytes_of ws) ≡ bytes ws
length-bytes_of [] = refl
length-bytes_of (w ∷ ws) = omega (arith, length-bytes_of ws)

pub words_in-bytes_of :
    (ws behind : List ℕ) → All IsWord ws → words_in (bytes_of ws ++ behind) ≡ ws ++ words_in behind
words_in-bytes_of [] behind h = refl
words_in-bytes_of (w ∷ ws) behind h = ap₂ ◌∷◌ (omega (arith, h.0)) (words_in-bytes_of ws behind h.1)
