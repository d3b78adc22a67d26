-- ===== src/Bitops/Packing.antt =====
-- string2bytes (ircodec/src/bitops.c:26) without its memory.
use irbridge.Base.{
  ℕ, zero, suc, ◌+◌, ◌-◌, ◌/◌, ◌<◌, false, Bool-cases, inl, inr, some, List, [], ◌∷◌, ◌++◌,
  append_assoc, Outcome, ok, ◌>>=◌, >>=-assoc, ◌≡◌, refl, sym, ◌∙◌, ap, length, length-append,
  write, write-append, ◌==◌, if◌then◌else◌, Allocates, arith,
}
use irbridge.Bitops.{Packer, add_bit, pack_char, pack_chars, nb_bytes, Bytes, string2bytes}

-- The bytes that remain to be written, with `data` collected so far and `b` places left in it.
unfoldable pub bytes_from : ℕ → ℕ → List ℕ → List ℕ
bytes_from b data' [] = if b == 8 then [] else data' ∷ []
bytes_from zero data' (c ∷ cs) = []
bytes_from (suc zero) data' (c ∷ cs) = add_bit data' 0 c ∷ bytes_from 8 0 cs
bytes_from (suc (suc b)) data' (c ∷ cs) = bytes_from (suc b) (add_bit data' (suc b) c) cs

-- The bytes of a string, the first character in the highest bit.
abbrev pub pack : List ℕ → List ℕ
pack = bytes_from 8 0

length-bytes_from :
    (cs : List ℕ) (b data' : ℕ)
    → b < 8
    → length (bytes_from (suc b) data' cs) ≡ (length cs + 14 - b) / 8
unfolding bytes_from
length-bytes_from [] b data' h = ground arith
length-bytes_from (c ∷ cs) zero data' h = omega (arith, length-bytes_from cs 7 0 (omega arith))
length-bytes_from (c ∷ cs) (suc b) data' h =
    omega (arith, length-bytes_from cs b (add_bit data' (suc b) c) (omega arith))

pub length-pack : (cs : List ℕ) → length (pack cs) ≡ nb_bytes (length cs)
length-pack cs = ground (arith, length-bytes_from cs 7 0 (omega arith))

finish : Packer → Outcome (List ℕ)
finish s = if s.b == 8 then ok s.out else write s.out s.j s.data'

pack_char-write :
    (c data' j : ℕ) (done junk : List ℕ) (k : ℕ)
    → j ≡ length done
    → pack_char c (record { data' = data'; b = 1; j = j; out = done ++ (k ∷ junk) })
      ≡ ok
          (record { data' = 0; b = 8; j = j + 1; out = (done ++ (add_bit data' 0 c ∷ [])) ++ junk })
unfolding pack_char
pack_char-write c data' j done junk k e =
    rw (write-append done junk k (add_bit data' 0 c) j e) (rw append_assoc refl)

pack_char_keep :
    (c data' b j : ℕ) (out : List ℕ)
    → pack_char c (record { data' = data'; b = suc (suc b); j = j; out = out })
      ≡ ok (record { data' = add_bit data' (suc b) c; b = suc b; j = j; out = out })
unfolding pack_char
pack_char_keep c data' b j out =
    let less : suc (suc b) - 1 ≡ suc b = omega arith in
    let more : (suc b == 0) ≡ false = ground arith in rw (less, more)

finish-write :
    (data' b j : ℕ) (done junk : List ℕ)
    → b < 8
    → j ≡ length done
    → length junk ≡ length (bytes_from (suc b) data' [])
    → finish (record { data' = data'; b = suc b; j = j; out = done ++ junk })
      ≡ ok (done ++ bytes_from (suc b) data' [])
unfolding finish bytes_from
finish-write data' b j done junk h e room = elim (Bool-cases (suc b == 8)) [
  | inl full ↦ rw full (ap (λ l. ok (done ++ l)) (empty junk (rw full at room)))
  | inr part ↦ rw part (one_left junk (rw part at room))
]
  where
    empty : (l : List ℕ) → length l ≡ 0 → l ≡ []
    empty [] h = refl
    empty (k ∷ l) h = absurd (omega arith)

    one_left : (l : List ℕ) → length l ≡ 1 → write (done ++ l) j data' ≡ ok (done ++ (data' ∷ []))
    one_left [] h = absurd (omega arith)
    one_left (k ∷ []) h = write-append done [] k data' j e
    one_left (k ∷ m ∷ l) h = absurd (omega arith)

pack_chars-bytes_from :
    (cs done junk : List ℕ) (b data' j : ℕ)
    → b < 8
    → j ≡ length done
    → length junk ≡ length (bytes_from (suc b) data' cs)
    → (pack_chars cs (record { data' = data'; b = suc b; j = j; out = done ++ junk }) >>= finish)
      ≡ ok (done ++ bytes_from (suc b) data' cs)
unfolding pack_chars bytes_from
pack_chars-bytes_from [] done junk b data' j h e room = finish-write data' b j done junk h e room
pack_chars-bytes_from (c ∷ cs) done [] zero data' j h e room = absurd (omega arith)
pack_chars-bytes_from (c ∷ cs) done (k ∷ junk) zero data' j h e room =
    let done' = done ++ (add_bit data' 0 c ∷ []) in
    rw (pack_char-write c data' j done junk k e) (
      pack_chars-bytes_from cs done' junk 7 0 (j + 1) (omega arith)
        (omega (arith, length-append done (add_bit data' 0 c ∷ []))) (omega arith)
      ∙ ap ok (append_assoc done (add_bit data' 0 c ∷ []) (bytes_from 8 0 cs)))
pack_chars-bytes_from (c ∷ cs) done junk (suc b) data' j h e room =
    rw (pack_char_keep c data' b j (done ++ junk))
      (pack_chars-bytes_from cs done junk b (add_bit data' (suc b) c) j (omega arith) e room)

-- With an allocator that gives blocks of the size asked for, `string2bytes` of a string that is not
-- empty writes inside its block and returns the packed string and its number of bytes, whatever the
-- block held.
pub string2bytes-pack :
    (alloc : ℕ → List ℕ) (c : ℕ) (cs : List ℕ)
    → Allocates alloc
    → string2bytes alloc (c ∷ cs)
      ≡ ok (record { out = some (pack (c ∷ cs)); count = nb_bytes (length (c ∷ cs)) })
unfolding string2bytes finish
string2bytes-pack alloc c cs fresh =
    let count = nb_bytes (suc (length cs)) in
    let give : List ℕ → Outcome Bytes = λ out. ok (record { out = some out; count = count }) in
    let start : Packer = record { data' = 0; b = 8; j = 0; out = alloc count } in
    let bits : (suc (length cs) == 0) ≡ false = ground arith in
    rw bits (
      sym (>>=-assoc (pack_chars (c ∷ cs) start) finish give)
      ∙ ap (λ m. m >>= give)
          (pack_chars-bytes_from (c ∷ cs) [] (alloc count) 7 0 0 (omega arith) refl
            (fresh count ∙ sym (length-pack (c ∷ cs)))))
