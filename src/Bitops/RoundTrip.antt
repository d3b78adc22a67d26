-- ===== src/Bitops/RoundTrip.antt =====
-- string2bytes and bytes2string undo one another.
use irbridge.Base.{
  ℕ, suc, ◌+◌, ◌-◌, ◌*◌, ◌≤◌, ◌<◌, none, some, List, [], ◌∷◌, ◌++◌, map, ok, fault, ◌>>=◌, ◌≡◌,
  Bool-cases, ==-eq, false, inl, inr, length-take, refl, sym, ◌∙◌, ap, ap₂, append-nil, take_all,
  length, All, take, ltb, ◌==◌, if◌then◌else◌, Allocates, arith,
}
use irbridge.Bitops.{string2bytes, bytes2string}
use irbridge.Bitops.Packing.{bytes_from, pack, length-pack, string2bytes-pack}
use irbridge.Bitops.Tables.{byte, upper, byte-row, row-byte}
use irbridge.Bitops.Unpacking.{
  row_from, length-row_from, row, bit_chars, bit_chars-zero, bytes2string-bit_chars,
}
use irbridge.Encoder.{canon}

pack_single : (cs : List ℕ) → 0 < length cs → length cs < 8 → pack cs ≡ byte cs ∷ []
unfolding bytes_from
pack_single [] pos h = absurd (omega arith)
pack_single (a ∷ b ∷ c ∷ d ∷ e ∷ f ∷ g ∷ i ∷ cs) pos h = absurd (omega arith)
pack_single _ pos h = refl

take-row : (n x : ℕ) → 8 ≤ n → take n (row x) ≡ row x
take-row n x h = take_all n (row x) (rw length-row_from h)

-- The bits of a packed string are its characters.
pub bit_chars-pack : (cs : List ℕ) → bit_chars (length cs) (pack cs) ≡ map canon cs
unfolding bytes_from bit_chars
bit_chars-pack (a ∷ b ∷ c ∷ d ∷ e ∷ f ∷ g ∷ i ∷ cs) =
    let front = a ∷ b ∷ c ∷ d ∷ e ∷ f ∷ g ∷ i ∷ [] in
    let n = 8 + length cs in
    let x = byte front in
    ap₂ ◌++◌
      (take-row (suc (suc (suc (suc (suc (suc (suc (suc (length cs))))))))) x (omega arith)
        ∙ sym (take-row 8 x (omega arith))
        ∙ row-byte front (omega arith))
      (ap (λ (k : ℕ). bit_chars k (pack cs)) (omega arith) ∙ bit_chars-pack cs)
bit_chars-pack cs = small cs (omega arith)
  where
    small : (cs : List ℕ) → length cs < 8 → bit_chars (length cs) (pack cs) ≡ map canon cs
    small [] h = refl
    small (c ∷ cs) h =
        rw (pack_single (c ∷ cs) (omega arith) h) (append-nil _ ∙ row-byte (c ∷ cs) (omega arith))

-- The bytes that `n` bits of some bytes become: the last one is cut to its upper bits.
unfoldable pub cut_bits : ℕ → List ℕ → List ℕ
cut_bits n [] = []
cut_bits n (x ∷ xs) =
    let rest = cut_bits (n - 8) xs in
    if n == 0 then [] else if ltb n 8 then upper n x ∷ [] else x ∷ rest

-- A byte that is taken whole.
pack-row : (x : ℕ) (cs : List ℕ) → x < 256 → pack (row x ++ cs) ≡ x ∷ pack cs
unfolding bytes_from row_from
pack-row x cs h = ap (λ (y : ℕ). y ∷ pack cs) (byte-row 8 x (omega arith) h ∙ omega arith)

-- The last byte, taken in part.
pack_part : (n x : ℕ) → 0 < n → n < 8 → x < 256 → pack (take n (row x)) ≡ upper n x ∷ []
pack_part n x pos part h =
    let len : length (take n (row x)) ≡ n =
      length-take n (row x) ∙ omega (arith, length-row_from 8 0 x) in
    pack_single (take n (row x)) (omega arith) (omega arith)
    ∙ ap (λ (y : ℕ). y ∷ []) (byte-row n x (omega arith) h)

-- Packing the first `n` bits of some bytes gives these bytes, the last one cut.
pub pack-bit_chars :
    (xs : List ℕ) (n : ℕ)
    → n ≤ length xs * 8
    → All (λ x. x < 256) xs
    → pack (bit_chars n xs) ≡ cut_bits n xs
unfolding bit_chars cut_bits
pack-bit_chars [] n h small = unfold bytes_from in refl
pack-bit_chars (x ∷ xs) n h small = elim (Bool-cases (ltb n 8)) [
  | inr full ↦
      let some_bits : (n == 0) ≡ false = ground arith in
      rw (full, some_bits, take-row n x (ground arith), pack-row x (bit_chars (n - 8) xs) small.0)
        (ap (◌∷◌ x) (pack-bit_chars xs (n - 8) (omega arith) small.1))
  | inl part ↦ elim (Bool-cases (n == 0)) [
    | inl none_left ↦ rw (==-eq n 0 none_left, bit_chars-zero xs) (unfold bytes_from in refl)
    | inr some_bits ↦
        let past : n - 8 ≡ 0 = ground arith in
        rw (part, some_bits, past, bit_chars-zero xs, append-nil (take n (row x)))
          (pack_part n x (ground arith) (ground arith) small.0)
  ]
]

-- With an allocator that gives blocks of the size asked for, `bytes2string` of the bytes that
-- `string2bytes` makes of a string that is not empty gives the string back, with every character
-- but '1' made '0', and the zero behind it.
pub bytes2string-string2bytes :
    (alloc : ℕ → List ℕ) (c : ℕ) (cs : List ℕ)
    → Allocates alloc
    → (string2bytes alloc (c ∷ cs) >>= λ r. elim r.out [
      | none ↦ fault
      | some out ↦ bytes2string alloc out (length (c ∷ cs))
    ])
      ≡ ok (some (map canon (c ∷ cs) ++ (0 ∷ [])))
bytes2string-string2bytes alloc c cs fresh = rw (string2bytes-pack alloc c cs fresh) (
    bytes2string-bit_chars alloc (pack (c ∷ cs)) (length (c ∷ cs)) fresh (omega arith)
      (ground (arith, length-pack (c ∷ cs)))
    ∙ ap (λ l. ok (some (l ++ (0 ∷ [])))) (bit_chars-pack (c ∷ cs)))
