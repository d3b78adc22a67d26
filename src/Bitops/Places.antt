-- ===== src/Bitops/Places.antt =====
-- The bytes of string2bytes (ircodec/src/bitops.c:26) by the places of the characters.
use irbridge.Base.{
  ℕ, zero, suc, false, ◌+◌, ◌^◌, ◌≤◌, ◌<◌, inl, inr, Bool-cases, some, List, [], ◌∷◌, ◌++◌, ok, ◌≡◌,
  refl, sym, ◌∙◌, ap, ap₂, length, ◌==◌, if◌then◌else◌, Allocates, arith,
}
use irbridge.Bitops.{add_bit, nb_bytes, string2bytes}
use irbridge.Bitops.Packing.{bytes_from, pack, string2bytes-pack}
use native.Mathlib.Nat.{pow-suc, one-le-pow}

-- What a character counts at a place: 2 ^ place for `1`, else nothing.
abbrev bit_value : ℕ → ℕ → ℕ
bit_value place c = if c == b'1' then 2 ^ place else 0

-- The sum of what the characters count, each at the place below that of the one before.
abbrev pub places_value : ℕ → List ℕ → ℕ
places_value place [] = 0
places_value zero (c ∷ cs) = bit_value 0 c
places_value (suc place) (c ∷ cs) = bit_value (suc place) c + places_value place cs

-- One byte for every eight characters, the first of them at place 7, and one for those that are left,
-- with nothing at the places behind them.
unfoldable pub msb_bytes : List ℕ → List ℕ
msb_bytes [] = []
msb_bytes (a ∷ b ∷ c ∷ d ∷ e ∷ f ∷ g ∷ h ∷ cs) =
    places_value 7 (a ∷ b ∷ c ∷ d ∷ e ∷ f ∷ g ∷ h ∷ []) ∷ msb_bytes cs
msb_bytes cs = places_value 7 cs ∷ []

-- No wrap-around while the places from `b` down are free.
add_bit-bit_value :
    (data' b c : ℕ) → data' + 2 ^ suc b ≤ 2 ^ 8 → add_bit data' b c ≡ data' + bit_value b c
add_bit-bit_value data' b c h = elim (Bool-cases (c == b'1')) [
  | inl one ↦ rw one (omega (arith, pow-suc 2 b, one-le-pow b 2))
  | inr other ↦ rw other (omega arith)
]

free_places : (data' b c : ℕ) → data' + 2 ^ suc b ≤ 2 ^ 8 → data' + bit_value b c + 2 ^ b ≤ 2 ^ 8
free_places data' b c h = elim (Bool-cases (c == b'1')) [
  | inl one ↦ rw one (omega (arith, pow-suc 2 b))
  | inr other ↦ rw other (omega (arith, pow-suc 2 b))
]

full-bytes_from :
    (cs rest : List ℕ) (b data' : ℕ)
    → length cs ≡ suc b
    → data' + 2 ^ suc b ≤ 2 ^ 8
    → bytes_from (suc b) data' (cs ++ rest) ≡ (data' + places_value b cs) ∷ bytes_from 8 0 rest
unfolding bytes_from
full-bytes_from [] rest b data' len h = absurd (omega arith)
full-bytes_from (c ∷ []) rest zero data' len h =
    ap (λ x. x ∷ bytes_from 8 0 rest) (add_bit-bit_value data' 0 c h ∙ omega arith)
full-bytes_from (c ∷ d ∷ cs) rest zero data' len h = absurd (omega arith)
full-bytes_from (c ∷ cs) rest (suc b) data' len h =
    ap (λ x. bytes_from (suc b) x (cs ++ rest)) (add_bit-bit_value data' (suc b) c h)
    ∙ full-bytes_from cs rest b (data' + bit_value (suc b) c) (omega arith)
        (free_places data' (suc b) c h)
    ∙ ap (λ x. x ∷ bytes_from 8 0 rest) (omega arith)

part-bytes_from :
    (cs : List ℕ) (b data' : ℕ)
    → length cs ≤ b
    → (suc b == 8) ≡ false
    → data' + 2 ^ suc b ≤ 2 ^ 8
    → bytes_from (suc b) data' cs ≡ (data' + places_value b cs) ∷ []
unfolding bytes_from
part-bytes_from [] b data' len part h = rw part (ap (λ x. x ∷ []) (omega arith))
part-bytes_from (c ∷ cs) zero data' len part h = absurd (omega arith)
part-bytes_from (c ∷ cs) (suc b) data' len part h =
    ap (λ x. bytes_from (suc b) x cs) (add_bit-bit_value data' (suc b) c h)
    ∙ part-bytes_from cs b (data' + bit_value (suc b) c) (omega arith) (ground arith)
        (free_places data' (suc b) c h)
    ∙ ap (λ x. x ∷ []) (omega arith)

short-pack : (c : ℕ) (cs : List ℕ) → length cs < 7 → pack (c ∷ cs) ≡ places_value 7 (c ∷ cs) ∷ []
unfolding bytes_from
short-pack c cs h =
    ap (λ x. bytes_from 7 x cs) (add_bit-bit_value 0 7 c (omega arith))
    ∙ part-bytes_from cs 6 (0 + bit_value 7 c) (omega arith) refl (free_places 0 7 c (omega arith))
    ∙ ap (λ x. x ∷ []) (omega arith)

short-msb_bytes :
    (cs : List ℕ) → 0 < length cs → length cs < 8 → msb_bytes cs ≡ places_value 7 cs ∷ []
unfolding msb_bytes
short-msb_bytes [] pos h = absurd (omega arith)
short-msb_bytes (a ∷ b ∷ c ∷ d ∷ e ∷ f ∷ g ∷ i ∷ cs) pos h = absurd (omega arith)
short-msb_bytes _ pos h = refl

pack-msb_bytes : (cs : List ℕ) → pack cs ≡ msb_bytes cs
unfolding msb_bytes
pack-msb_bytes (a ∷ b ∷ c ∷ d ∷ e ∷ f ∷ g ∷ h ∷ cs) =
    full-bytes_from (a ∷ b ∷ c ∷ d ∷ e ∷ f ∷ g ∷ h ∷ []) cs 7 0 refl (omega arith)
    ∙ ap₂ ◌∷◌ (omega arith) (pack-msb_bytes cs)
pack-msb_bytes cs = short cs (omega arith)
  where
    short : (cs : List ℕ) → length cs < 8 → pack cs ≡ msb_bytes cs
    short [] h = unfold bytes_from in refl
    short (c ∷ cs) h =
        short-pack c cs (omega arith) ∙ sym (short-msb_bytes (c ∷ cs) (omega arith) (omega arith))

-- With an allocator that gives blocks of the size asked for, `string2bytes` of a string that is not
-- empty writes inside its block, whatever that held, and returns the number of bytes and the bytes:
-- one for every eight characters and one for those that are left. In each byte a `1` counts 2 ^ 7
-- as the first character, 2 ^ 6 as the second, and so on down to 1 as the eighth; any other
-- character counts nothing.
pub string2bytes-msb_bytes :
    (alloc : ℕ → List ℕ) (c : ℕ) (cs : List ℕ)
    → Allocates alloc
    → string2bytes alloc (c ∷ cs)
      ≡ ok (record { out = some (msb_bytes (c ∷ cs)); count = nb_bytes (length (c ∷ cs)) })
string2bytes-msb_bytes alloc c cs fresh =
    string2bytes-pack alloc c cs fresh
    ∙ ap (λ l. ok (record { out = some l; count = nb_bytes (length (c ∷ cs)) }))
        (pack-msb_bytes (c ∷ cs))
