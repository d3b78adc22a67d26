-- ===== src/Config/Split/Laws.antt =====
-- What splitKey (raspberrypi/irbrgd/trim.c:145) makes of a line of words.
use irbridge.Base.{
  ℕ, zero, suc, ◌+◌, ◌≡◌, refl, sym, ap, ◌∙◌, true, false, Option, none, some, List, [], ◌∷◌, ◌++◌,
  All, length, ◌==◌, arith, IsText, length-append, append_assoc, append-nil,
}
use irbridge.Config.Split.{
  KeySplit, white, split_from, split_key, until_zero, word_at, key_of, args_of,
}

abbrev pub IsBlank : ℕ → Type 0
IsBlank c = white c ≡ true

abbrev pub IsDark : ℕ → Type 0
IsDark c = white c ≡ false

abbrev put : List ℕ → KeySplit → KeySplit
put pre r = record r { text = pre ++ r.text }

-- Behind the start of the arguments nothing changes.
split_args :
    (cs : List ℕ) (i : ℕ) (key args : Option ℕ)
    → split_from cs i true true true key args ≡ record { text = cs; key = key; args = args }
unfolding split_from
split_args [] i key args = refl
split_args (c ∷ cs) i key args = rw (split_args cs (suc i) key args) refl

-- In the blanks behind the key, up to `rest`.
split_gap :
    (blanks rest : List ℕ) (i j : ℕ) (key : Option ℕ)
    → All IsBlank blanks
    → j ≡ i + length blanks
    → split_from (blanks ++ rest) i true true false key none
      ≡ put blanks (split_from rest j true true false key none)
unfolding split_from
split_gap [] rest i j key h e = ap (λ n. split_from rest n true true false key none) (omega arith)
split_gap (w ∷ ws) rest i j key h e =
    rw (h.0, split_gap ws rest (suc i) j key h.1 (omega arith)) refl

-- In the key.
split_word :
    (word rest : List ℕ) (i j : ℕ) (key : Option ℕ)
    → All IsDark word
    → j ≡ i + length word
    → split_from (word ++ rest) i true false false key none
      ≡ put word (split_from rest j true false false key none)
unfolding split_from
split_word [] rest i j key h e = ap (λ n. split_from rest n true false false key none) (omega arith)
split_word (w ∷ ws) rest i j key h e =
    rw (h.0, split_word ws rest (suc i) j key h.1 (omega arith)) refl

-- In the blanks before the key.
split_lead :
    (blanks rest : List ℕ) (i j : ℕ)
    → All IsBlank blanks
    → j ≡ i + length blanks
    → split_from (blanks ++ rest) i false false false none none
      ≡ put blanks (split_from rest j false false false none none)
unfolding split_from
split_lead [] rest i j h e = ap (λ n. split_from rest n false false false none none) (omega arith)
split_lead (w ∷ ws) rest i j h e = rw (h.0, split_lead ws rest (suc i) j h.1 (omega arith)) refl

word_at-append :
    (pre rest : List ℕ) (i : ℕ) → i ≡ length pre → word_at (pre ++ rest) i ≡ until_zero rest
word_at-append [] rest zero e = refl
word_at-append [] rest (suc i) e = absurd (omega arith)
word_at-append (x ∷ pre) rest zero e = absurd (omega arith)
word_at-append (x ∷ pre) rest (suc i) e = word_at-append pre rest i (omega arith)

until_zero-text : (cs : List ℕ) → IsText cs → until_zero cs ≡ cs
until_zero-text [] h = refl
until_zero-text (c ∷ cs) h =
    let more : (c == 0) ≡ false = ground (arith, h.0) in
    rw more (ap (◌∷◌ c) (until_zero-text cs h.1))

until_zero-append : (cs rest : List ℕ) → IsText cs → until_zero (cs ++ (0 ∷ rest)) ≡ cs
until_zero-append [] rest h = refl
until_zero-append (c ∷ cs) rest h =
    let more : (c == 0) ≡ false = ground (arith, h.0) in
    rw more (ap (◌∷◌ c) (until_zero-append cs rest h.1))

split_from_args :
    (rest : List ℕ) (a i n : ℕ)
    → IsDark a
    → split_from (a ∷ rest) n true true false (some i) none
      ≡ record { text = a ∷ rest; key = some i; args = some n }
unfolding split_from
split_from_args rest a i n h = rw (h, split_args rest (suc n) (some i) (some n)) refl

split_from_gap :
    (gap rest : List ℕ) (w a i j : ℕ)
    → All IsBlank (w ∷ gap)
    → IsDark a
    → split_from (w ∷ (gap ++ (a ∷ rest))) j true false false (some i) none
      ≡ record { text = 0 ∷ (gap ++ (a ∷ rest)); key = some i; args = some (j + length (w ∷ gap)) }
unfolding split_from
split_from_gap gap rest w a i j h k =
    let n = j + length (w ∷ gap) in
    rw
      (
        h.0,
        split_gap gap (a ∷ rest) (suc j) n (some i) h.1 (omega arith)
            ∙ ap (put gap) (split_from_args rest a i n k),
      )
      refl

split_from_key :
    (key gap rest : List ℕ) (k w a i : ℕ)
    → All IsDark (k ∷ key)
    → All IsBlank (w ∷ gap)
    → IsDark a
    → let n = i + length (k ∷ key) in
      split_from (k ∷ (key ++ (w ∷ (gap ++ (a ∷ rest))))) i false false false none none ≡ record {
        text = (k ∷ key) ++ (0 ∷ (gap ++ (a ∷ rest)));
        key = some i;
        args = some (n + length (w ∷ gap));
      }
unfolding split_from
split_from_key key gap rest k w a i hk hw ha =
    let n = i + length (k ∷ key) in
    rw
      (
        hk.0,
        split_word key (w ∷ (gap ++ (a ∷ rest))) (suc i) n (some i) hk.1 (omega arith)
            ∙ ap (put key) (split_from_gap gap rest w a i n hw ha),
      )
      refl

-- On a line of a key and, behind at least one blank, its arguments, `splitKey` makes `*pkey` point
-- to the key and `*pargs` to all that follows the blanks. The characters of the key and the first
-- of the arguments are no blanks, no character of either is zero, and there may be blanks in front.
pub split_key_line :
    (lead key gap rest : List ℕ) (k w a : ℕ)
    → All IsBlank lead
    → All IsDark (k ∷ key)
    → All IsBlank (w ∷ gap)
    → IsDark a
    → IsText (k ∷ key)
    → IsText (a ∷ rest)
    → let r = split_key (lead ++ (k ∷ (key ++ (w ∷ (gap ++ (a ∷ rest)))))) in
      (key_of r ≡ some (k ∷ key)) × (args_of r ≡ some (a ∷ rest))
unfolding split_key
split_key_line lead key gap rest k w a hl hk hw ha tk ta =
    let i = length lead in
    let n = i + length (k ∷ key) + length (w ∷ gap) in
    let zeroed = gap ++ (a ∷ rest) in
    let whole : split_key (lead ++ (k ∷ (key ++ (w ∷ (gap ++ (a ∷ rest))))))
        ≡ record { text = lead ++ ((k ∷ key) ++ (0 ∷ zeroed)); key = some i; args = some n } =
      split_lead lead (k ∷ (key ++ (w ∷ zeroed))) 0 i hl (omega arith)
      ∙ ap (put lead) (split_from_key key gap rest k w a i hk hw ha) in
    (
      ap key_of whole
          ∙ ap some (
              word_at-append lead ((k ∷ key) ++ (0 ∷ zeroed)) i refl
              ∙ until_zero-append (k ∷ key) zeroed tk),
      ap args_of whole
          ∙ ap some (
              ap (λ l. word_at (lead ++ l) n) (split_at (k ∷ key))
              ∙ ap (λ l. word_at l n) (sym (append_assoc lead ((k ∷ key) ++ (0 ∷ gap)) (a ∷ rest)))
              ∙ word_at-append (lead ++ ((k ∷ key) ++ (0 ∷ gap))) (a ∷ rest) n (
                  omega (
                    arith,
                    length-append lead ((k ∷ key) ++ (0 ∷ gap)),
                    length-append (k ∷ key) (0 ∷ gap),
                  ))
              ∙ until_zero-text (a ∷ rest) ta),
    )
  where
    split_at : (l : List ℕ) → l ++ (0 ∷ (gap ++ (a ∷ rest))) ≡ (l ++ (0 ∷ gap)) ++ (a ∷ rest)
    split_at l = sym (append_assoc l (0 ∷ gap) (a ∷ rest))

split_key_only :
    (key : List ℕ) (k i : ℕ)
    → All IsDark (k ∷ key)
    → split_from (k ∷ key) i false false false none none
      ≡ record { text = k ∷ key; key = some i; args = none }
unfolding split_from
split_key_only key k i h =
    rw
      (
        h.0,
        ap (λ l. split_from l (suc i) true false false (some i) none) (sym (append-nil key))
            ∙ split_word key [] (suc i) (suc i + length key) (some i) h.1 refl,
      )
      (ap (λ l. record { text = k ∷ l; key = some i; args = none }) (append-nil key))

-- A line that ends with its key has no arguments: `*pargs` is not set.
pub split_key_key :
    (lead key : List ℕ) (k : ℕ)
    → All IsBlank lead
    → All IsDark (k ∷ key)
    → IsText (k ∷ key)
    → let r = split_key (lead ++ (k ∷ key)) in (key_of r ≡ some (k ∷ key)) × (args_of r ≡ none)
unfolding split_key
split_key_key lead key k hl hk tk =
    let i = length lead in
    let whole : split_key (lead ++ (k ∷ key))
        ≡ record { text = lead ++ (k ∷ key); key = some i; args = none } =
      split_lead lead (k ∷ key) 0 i hl (omega arith) ∙ ap (put lead) (split_key_only key k i hk) in
    (
      ap key_of whole
          ∙ ap some (word_at-append lead (k ∷ key) i refl ∙ until_zero-text (k ∷ key) tk),
      ap args_of whole,
    )
