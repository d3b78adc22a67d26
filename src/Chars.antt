-- ===== src/Chars.antt =====
-- Strings of the characters '0' and '1', in the buffers of ircodec/src.
use irbridge.Base.{
  ℕ, zero, suc, ◌+◌, ◌-◌, List, [], ◌∷◌, map, ok, ◌≡◌, refl, ap₂, length, take, replicate, All,
  All-append, IsText, c_string, c_string-append, arith,
}
use irbridge.Bitops.Unpacking.{bit_chars, row_from}
use irbridge.Decoder.{buff_size}
use irbridge.Decoder.Frames.{Fits}
use irbridge.Decoder.Protocol.{buf_of}
use irbridge.Encoder.{canon}

-- The buffer of a decoder read as a C string.
pub c_string-buf_of :
    (bits : List ℕ) → Fits bits → IsText bits → c_string (buf_of bits).buff ≡ ok bits
unfolding buf_of
c_string-buf_of bits h text =
    let spare : buff_size - length bits ≡ suc (buff_size - length bits - 1) = omega arith in
    rw spare (c_string-append bits (replicate (buff_size - length bits - 1) 0) text)

-- Strings of '0' and '1'.
abbrev pub IsBit : ℕ → Type 0
IsBit c = canon c ≡ c

pub map-canon : (cs : List ℕ) → All IsBit cs → map canon cs ≡ cs
map-canon [] h = refl
map-canon (c ∷ cs) h = ap₂ ◌∷◌ h.0 (map-canon cs h.1)

pub Bits-IsText : (cs : List ℕ) → All IsBit cs → IsText cs
Bits-IsText [] h = tt
Bits-IsText (c ∷ cs) h = ((λ e. ground (arith, h.0)), Bits-IsText cs h.1)

pub All-take : (P : ℕ → Type 0) (n : ℕ) (cs : List ℕ) → All P cs → All P (take n cs)
All-take P zero cs h = tt
All-take P (suc n) [] h = tt
All-take P (suc n) (c ∷ cs) h = (h.0, All-take P n cs h.1)

row_from-Bits : (left b x : ℕ) → All IsBit (row_from left b x)
unfolding row_from
row_from-Bits zero b x = tt
row_from-Bits (suc left) b x = (ground arith, row_from-Bits left (b + 1) x)

pub bit_chars-Bits : (xs : List ℕ) (n : ℕ) → All IsBit (bit_chars n xs)
unfolding bit_chars
bit_chars-Bits [] n = tt
bit_chars-Bits (x ∷ xs) n =
    All-append IsBit (take n (row_from 8 0 x)) (bit_chars (n - 8) xs)
      (All-take IsBit n (row_from 8 0 x) (row_from-Bits 8 0 x)) (bit_chars-Bits xs (n - 8))
