-- ===== src/Bitops/Unpacking.antt =====
-- bytes2string (ircodec/src/bitops.c:68) without its memory.
use irbridge.Base.{
  ℕ, zero, suc, ◌+◌, ◌-◌, ◌*◌, ◌≤◌, ◌<◌, true, false, Option, some, List, [], ◌∷◌, ◌++◌,
  append_assoc, Outcome, ok, ◌>>=◌, ◌≡◌, refl, sym, ◌∙◌, ap, length, length-append, min, take, drop,
  take-append-drop, length-take, length-drop, get_elem?-append, write, write-append, read, ltb,
  ◌==◌, Allocates, arith,
}
use irbridge.Bitops.{bit_char, unpack_byte, unpack_bytes, nb_bytes, bytes2string}

-- The characters of a byte from bit `b` on.
unfoldable pub row_from : ℕ → ℕ → ℕ → List ℕ
row_from zero b x = []
row_from (suc left) b x = bit_char x b ∷ row_from left (b + 1) x

abbrev pub row : ℕ → List ℕ
row = row_from 8 0

-- The first `n` characters of some bytes, the highest bit of each first.
unfoldable pub bit_chars : ℕ → List ℕ → List ℕ
bit_chars n [] = []
bit_chars n (x ∷ xs) = take n (row x) ++ bit_chars (n - 8) xs

take-nil : (n : ℕ) → take {A = ℕ} n [] ≡ []
take-nil zero = refl
take-nil (suc n) = refl

pub length-row_from : (left b x : ℕ) → length (row_from left b x) ≡ left
unfolding row_from
length-row_from zero b x = refl
length-row_from (suc left) b x = ap suc (length-row_from left (b + 1) x)

pub length-bit_chars : (xs : List ℕ) (n : ℕ) → n ≤ length xs * 8 → length (bit_chars n xs) ≡ n
unfolding bit_chars
length-bit_chars [] n h = omega arith
length-bit_chars (x ∷ xs) n h = omega (
  arith,
  length-append (take n (row x)) (bit_chars (n - 8) xs),
  length-take n (row x),
  length-row_from 8 0 x,
  length-bit_chars xs (n - 8) (omega arith),
)

pub bit_chars-zero : (xs : List ℕ) → bit_chars 0 xs ≡ []
unfolding bit_chars
bit_chars-zero [] = refl
bit_chars-zero (x ∷ xs) = bit_chars-zero xs

module _ (samples pre : List ℕ) (x : ℕ) (post : List ℕ) (nbbits : ℕ)
    (split : samples ≡ pre ++ (x ∷ post)) where
  read_here : (i : ℕ) → i ≡ length pre → read samples i ≡ ok x
  read_here i e = rw (split, e, read, get_elem?-append pre post x)

  -- `m` characters are still to be written, of which this byte gives `left` at most.
  unpack_byte-row_from :
      (left b i m : ℕ) (done hole rest : List ℕ)
      → i ≡ length pre
      → m ≡ nbbits - (8 * i + b)
      → length done ≡ 8 * i + b
      → length hole ≡ length (take m (row_from left b x))
      → unpack_byte samples nbbits left i b (done ++ (hole ++ rest))
        ≡ ok (done ++ (take m (row_from left b x) ++ rest))
  unfolding unpack_byte row_from
  unpack_byte-row_from zero b i m done [] rest e me at h = rw take-nil
  unpack_byte-row_from zero b i m done (k ∷ hole) rest e me at h =
      absurd (omega (arith, rw take-nil at h))
  unpack_byte-row_from (suc left) b i zero done [] rest e me at h =
      let full : ltb (8 * i + b) nbbits ≡ false = ground arith in rw full
  unpack_byte-row_from (suc left) b i zero done (k ∷ hole) rest e me at h = absurd (omega arith)
  unpack_byte-row_from (suc left) b i (suc m) done [] rest e me at h = absurd (omega arith)
  unpack_byte-row_from (suc left) b i (suc m) done (k ∷ hole) rest e me at h =
      let more : ltb (8 * i + b) nbbits ≡ true = ground arith in
      let c = bit_char x b in
      rw
        (
          more,
          read_here i e,
          write-append done (hole ++ rest) k c (8 * i + b) (sym at),
          ← append_assoc done (c ∷ []) (hole ++ rest),
        )
        (unpack_byte-row_from left (b + 1) i m (done ++ (c ∷ [])) hole rest e (omega arith)
            (omega (arith, length-append done (c ∷ []))) (omega arith)
          ∙ ap ok (append_assoc done (c ∷ []) (take m (row_from left (b + 1) x) ++ rest)))

-- `m` characters are still to be written.
unpack_bytes-bit_chars :
    (left nbbits i m : ℕ) (samples pre xs done hole rest : List ℕ)
    → samples ≡ pre ++ xs
    → i ≡ length pre
    → m ≡ nbbits - 8 * i
    → left ≡ nb_bytes m
    → left ≤ length xs
    → (0 < left → length done ≡ 8 * i)
    → length hole ≡ m
    → unpack_bytes samples nbbits left i (done ++ (hole ++ rest))
      ≡ ok (done ++ (bit_chars m xs ++ rest))
unfolding unpack_bytes bit_chars
unpack_bytes-bit_chars zero nbbits i m samples pre xs done [] rest split e me le enough at h =
    rw (← h, bit_chars-zero xs)
unpack_bytes-bit_chars zero nbbits i m samples pre xs done (k ∷ hole) rest split e me le enough at
      h =
    absurd (ground arith)
unpack_bytes-bit_chars (suc left) nbbits i m samples pre [] done hole rest split e me le enough at
      h =
    absurd (omega arith)
unpack_bytes-bit_chars (suc left) nbbits i m samples pre (x ∷ xs) done hole rest split e me le
      enough at h =
    let a = take 8 hole in
    let z = drop 8 hole in
    let here = take m (row x) in
    let same : hole ++ rest ≡ a ++ (z ++ rest) =
      ap (λ l. l ++ rest) (sym (take-append-drop 8 hole)) ∙ append_assoc a z rest in
    let shift : samples ≡ (pre ++ (x ∷ [])) ++ xs = split ∙ sym (append_assoc pre (x ∷ []) xs) in
    let len : length here ≡ min m 8 = length-take m (row x) ∙ ap (min m) (length-row_from 8 0 x) in
    rw
      (
        same,
        unpack_byte-row_from samples pre x xs nbbits split 8 0 i m done a (z ++ rest) e
            (omega arith) (omega arith) (omega (arith, length-take 8 hole, len)),
        ← append_assoc done here (z ++ rest),
      )
      (unpack_bytes-bit_chars left nbbits (i + 1) (m - 8) samples (pre ++ (x ∷ [])) xs
          (done ++ here) z rest shift (omega (arith, length-append pre (x ∷ []))) (omega arith)
          (ground arith) (omega arith)
          (λ some_left. ground (arith, length-append done here, len, at (omega arith)))
          (omega (arith, length-drop 8 hole))
        ∙ ap ok (simp append_assoc))

-- With an allocator that gives blocks of the size asked for, and a number of bits that is positive
-- and no more than the samples have, `bytes2string` reads and writes inside its arrays and returns
-- the first bits as characters with a zero behind them, whatever the block held.
pub bytes2string-bit_chars :
    (alloc : ℕ → List ℕ) (samples : List ℕ) (nbbits : ℕ)
    → Allocates alloc
    → 0 < nbbits
    → nbbits ≤ length samples * 8
    → bytes2string alloc samples nbbits ≡ ok (some (bit_chars nbbits samples ++ (0 ∷ [])))
unfolding bytes2string
bytes2string-bit_chars alloc samples nbbits fresh pos enough =
    let some_bits : (nbbits == 0) ≡ false = ground arith in
    let block = alloc (nbbits + 1) in
    let size : length block ≡ nbbits + 1 = fresh (nbbits + 1) in
    rw some_bits (
      go (take nbbits block) (drop nbbits block) (sym (take-append-drop nbbits block))
        (length-take nbbits block ∙ omega arith) (length-drop nbbits block ∙ omega arith))
  where
    finish : List ℕ → Outcome (Option (List ℕ))
    finish out = write out nbbits 0 >>= λ out'. ok (some out')

    chars : List ℕ
    chars = bit_chars nbbits samples

    go :
        (hole tail : List ℕ)
        → alloc (nbbits + 1) ≡ hole ++ tail
        → length hole ≡ nbbits
        → length tail ≡ 1
        → (unpack_bytes samples nbbits (nb_bytes nbbits) 0 (alloc (nbbits + 1)) >>= finish)
          ≡ ok (some (chars ++ (0 ∷ [])))
    go hole [] e h t = absurd (omega arith)
    go hole (z ∷ w ∷ tail) e h t = absurd (omega arith)
    go hole (z ∷ []) e h t =
        rw
          (
            e,
            unpack_bytes-bit_chars (nb_bytes nbbits) nbbits 0 nbbits samples [] samples [] hole
                (z ∷ []) refl refl (omega arith) refl (ground arith) (λ _. refl) h,
            write-append chars [] z 0 nbbits (sym (length-bit_chars samples nbbits enough)),
          )
          refl
