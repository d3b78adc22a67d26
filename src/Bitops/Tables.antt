-- ===== src/Bitops/Tables.antt =====
-- One byte and its characters, checked over all bytes and over all strings of up to eight bits.
use mathlib.Core.Path.{subst}
use irbridge.Base.{
  ℕ, zero, suc, ◌+◌, ◌-◌, ◌*◌, ◌/◌, ◌^◌, ◌≤◌, ◌<◌, Bool, true, false, ◌&&◌, List, [], ◌∷◌, ◌++◌,
  map, ◌≡◌, refl, sym, ◌∙◌, ap, ap₂, append-nil, length, length-map, get_or, take, ◌==◌, ==-eq,
  if◌then◌else◌, table_holds, checked_below, arith,
}
use irbridge.Bitops.{add_bit}
use irbridge.Bitops.Packing.{bytes_from, pack}
use irbridge.Bitops.Unpacking.{row_from, row}
use irbridge.Encoder.{canon}

eq_list : List ℕ → List ℕ → Bool
eq_list [] [] = true
eq_list (x ∷ xs) (y ∷ ys) = (x == y) && eq_list xs ys
eq_list _ _ = false

eq_list_sound : (xs ys : List ℕ) → eq_list xs ys ≡ true → xs ≡ ys
unfolding eq_list
eq_list_sound [] [] h = refl
eq_list_sound [] (y ∷ ys) h = absurd (ground arith)
eq_list_sound (x ∷ xs) [] h = absurd (ground arith)
eq_list_sound (x ∷ xs) (y ∷ ys) h = ground (arith, eq_list_sound xs ys)

-- The byte that a string of at most eight characters becomes.
abbrev pub byte : List ℕ → ℕ
byte cs = get_or (pack cs) 0 0

-- The upper `n` bits of a byte.
abbrev pub upper : ℕ → ℕ → ℕ
upper n x = x / 2 ^ (8 - n) * 2 ^ (8 - n)

byte-row_table :
    table_holds 9 (λ n. table_holds 256 (λ x. byte (take n (row x)) == upper n x)) ≡ true
unfolding table_holds bytes_from row_from
byte-row_table = refl

-- The first `n` characters of a byte become its upper `n` bits.
pub byte-row : (n x : ℕ) → n ≤ 8 → x < 256 → byte (take n (row x)) ≡ upper n x
byte-row n x hn hx =
    ==-eq _ _ (checked_below 256 _ x (checked_below 9 _ n byte-row_table (omega arith)) hx)

abbrev chars : List Bool → List ℕ
chars = map (λ b. if b then b'1' else b'0')

-- `bs` are the last bits of a string with `d` bits more in front.
row-byte_test : ℕ → ℕ → List Bool → Bool
row-byte_test n zero bs = eq_list (take n (row (byte (chars bs)))) (chars bs)
row-byte_test n (suc d) bs = row-byte_test n d (true ∷ bs) && row-byte_test n d (false ∷ bs)

-- The list `bs`, last element first, in front of `acc`.
onto : List Bool → List Bool → List Bool
onto [] acc = acc
onto (b ∷ bs) acc = onto bs (b ∷ acc)

row-byte_test_sound :
    (n d : ℕ) (bs acc : List Bool)
    → length bs ≡ d
    → row-byte_test n d acc ≡ true
    → row-byte_test n 0 (onto bs acc) ≡ true
unfolding row-byte_test onto
row-byte_test_sound n zero [] acc e h = h
row-byte_test_sound n zero (b ∷ bs) acc e h = absurd (omega arith)
row-byte_test_sound n (suc d) [] acc e h = absurd (omega arith)
row-byte_test_sound n (suc d) (true ∷ bs) acc e h =
    row-byte_test_sound n d bs (true ∷ acc) (omega arith) (ground arith)
row-byte_test_sound n (suc d) (false ∷ bs) acc e h =
    row-byte_test_sound n d bs (false ∷ acc) (omega arith) (ground arith)

row-byte_table : table_holds 9 (λ n. row-byte_test n n []) ≡ true
unfolding table_holds row-byte_test eq_list bytes_from row_from
row-byte_table = refl

onto-onto : (bs acc cs : List Bool) → onto (onto bs acc) cs ≡ onto acc (bs ++ cs)
unfolding onto
onto-onto [] acc cs = refl
onto-onto (b ∷ bs) acc cs = onto-onto bs (b ∷ acc) cs

length-onto : (bs acc : List Bool) → length (onto bs acc) ≡ length bs + length acc
unfolding onto
length-onto [] acc = omega arith
length-onto (b ∷ bs) acc = omega (arith, length-onto bs (b ∷ acc))

row-byte_bits :
    (bs : List Bool) → length bs ≤ 8 → take (length bs) (row (byte (chars bs))) ≡ chars bs
unfolding row-byte_test
row-byte_bits bs h = eq_list_sound _ _ (subst (λ l. row-byte_test n 0 l ≡ true) back sound)
  where
    n : ℕ
    n = length bs

    back : onto (onto bs []) [] ≡ bs
    back = onto-onto bs [] [] ∙ unfold onto in append-nil bs

    sound : row-byte_test n 0 (onto (onto bs []) []) ≡ true
    sound =
        row-byte_test_sound n n (onto bs []) [] (omega (arith, length-onto bs []))
          (checked_below 9 _ n row-byte_table (omega arith))

chars_canon : (cs : List ℕ) → chars (map (λ c. c == b'1') cs) ≡ map canon cs
chars_canon [] = refl
chars_canon (c ∷ cs) = ap (◌∷◌ (canon c)) (chars_canon cs)

add_bit-canon : (data' b c : ℕ) → add_bit data' b (canon c) ≡ add_bit data' b c
add_bit-canon data' b c = ground arith

-- Only the ones of a string count.
pub bytes_from-canon :
    (cs : List ℕ) (b data' : ℕ) → bytes_from b data' (map canon cs) ≡ bytes_from b data' cs
unfolding bytes_from
bytes_from-canon [] zero data' = refl
bytes_from-canon [] (suc b) data' = refl
bytes_from-canon (c ∷ cs) zero data' = refl
bytes_from-canon (c ∷ cs) (suc zero) data' =
    ap₂ ◌∷◌ (add_bit-canon data' 0 c) (bytes_from-canon cs 8 0)
bytes_from-canon (c ∷ cs) (suc (suc b)) data' =
    ap (λ d. bytes_from (suc b) d (map canon cs)) (add_bit-canon data' (suc b) c)
    ∙ bytes_from-canon cs (suc b) (add_bit data' (suc b) c)

length-bits : (cs : List ℕ) → length (map (λ c. c == b'1') cs) ≡ length cs
length-bits = length-map (λ c. c == b'1')

-- The byte of a string of up to eight characters has those characters in front.
pub row-byte : (cs : List ℕ) → length cs ≤ 8 → take (length cs) (row (byte cs)) ≡ map canon cs
row-byte cs h =
    let bs = map (λ c. c == b'1') cs in
    let same : byte (chars bs) ≡ byte cs =
      ap (λ l. get_or l 0 0) (ap pack (chars_canon cs) ∙ bytes_from-canon cs 8 0) in
    let len : length bs ≡ length cs = length-bits cs in
    ap₂ (λ n x. take n (row x)) (sym len) (sym same)
    ∙ row-byte_bits bs (omega arith)
    ∙ chars_canon cs
