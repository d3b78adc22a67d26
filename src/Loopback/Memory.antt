-- ===== src/Loopback/Memory.antt =====
-- The codecs where `malloc` finds no memory: a null pointer is a block of no places
-- (ircodec/src/bitops.c:40 and 78, ircodec/src/ir_nec.c:77, ircodec/src/ir_unkn0.c:77).
use irbridge.Base.{
  ℕ, zero, suc, ◌+◌, ◌-◌, ◌*◌, ◌<◌, ◌≡◌, refl, sym, ap, ◌∙◌, Option, none, some, get_elem?, true,
  false, Bool-cases, inl, inr, List, [], ◌∷◌, Outcome, ok, fault, ◌>>=◌, >>=-assoc, length, write,
  ltb, ◌==◌, if◌then◌else◌, arith,
}
use irbridge.Bitops.{
  add_bit, bit_char, pack_char, pack_chars, string2bytes, nb_bytes, unpack_byte, unpack_bytes,
  bytes2string,
}
use irbridge.Nec.{nec_encode}
use irbridge.Unkn0.{unkn0_encode, unkn0_fill}

write-nil : (i v : ℕ) → write [] i v ≡ fault
unfolding write
write-nil i v = let outside : ltb i 0 ≡ false = ground arith in rw outside refl

-- Without a place, the first byte that is complete, or the last one, is written nowhere.
pack_chars-nil :
    (cs : List ℕ) (data' b j : ℕ)
    → 0 < b
    → b < 8
    → (pack_chars cs (record { data' = data'; b = b; j = j; out = [] }) >>= λ s.
        (if s.b == 8 then ok s.out else write s.out s.j s.data'))
      ≡ fault
unfolding pack_chars pack_char
pack_chars-nil [] data' b j positive more =
    let open_byte : (b == 8) ≡ false = ground arith in rw open_byte (write-nil j data')
pack_chars-nil (c ∷ cs) data' b j positive more = elim (Bool-cases (b - 1 == 0)) [
  | inl last ↦ rw (last, write-nil) refl
  | inr next ↦ rw next (pack_chars-nil cs _ (b - 1) j (ground arith) (omega arith))
]

unpack_byte-nil :
    (samples : List ℕ) (nbbits left i b : ℕ)
    → ltb (8 * i + b) nbbits ≡ true
    → unpack_byte samples nbbits (suc left) i b [] ≡ fault
unfolding unpack_byte
unpack_byte-nil samples nbbits left i b more = rw more (first_write (get_elem? samples i))
  where
    first_write :
        (o : Option ℕ)
        → ((elim o as (λ _. Outcome ℕ) [ none ↦ fault | some x ↦ ok x ]) >>= λ x.
            write [] (8 * i + b) (bit_char x b) >>= unpack_byte samples nbbits left i (b + 1))
          ≡ fault
    first_write none = refl
    first_write (some x) = rw write-nil refl

module _ (alloc : ℕ → List ℕ) (none_left : (n : ℕ) → alloc n ≡ []) where
  string2bytes-fault : (c : ℕ) (cs : List ℕ) → string2bytes alloc (c ∷ cs) ≡ fault
  unfolding string2bytes pack_chars pack_char
  string2bytes-fault c cs =
      let some_bits : (length (c ∷ cs) == 0) ≡ false = ground arith in
      rw (some_bits, none_left)
        (sym (>>=-assoc (pack_chars cs _) _ _)
          ∙ ap
              (λ m. m >>= λ out. ok (record { out = some out; count = nb_bytes (length (c ∷ cs)) }))
              (pack_chars-nil cs (add_bit 0 7 c) 7 0 (omega arith) (omega arith)))

  bytes2string-fault :
      (samples : List ℕ) (nbbits : ℕ) → 0 < nbbits → bytes2string alloc samples nbbits ≡ fault
  unfolding bytes2string unpack_bytes
  bytes2string-fault samples zero positive = absurd (omega arith)
  bytes2string-fault samples (suc n) positive =
      let bytes : nb_bytes (suc n) ≡ suc (nb_bytes (suc n) - 1) = ground arith in
      let some_bits : (suc n == 0) ≡ false = ground arith in
      rw (some_bits, none_left, bytes, unpack_byte-nil samples (suc n) 7 0 0 (ground arith)) refl

  nec_encode-fault : (c : ℕ) (cs : List ℕ) → nec_encode alloc (c ∷ cs) ≡ fault
  unfolding nec_encode
  nec_encode-fault c cs =
      let some_bits : (length (c ∷ cs) == 0) ≡ false = ground arith in
      rw (some_bits, none_left, write-nil) refl

  unkn0_encode-fault : (c : ℕ) (cs : List ℕ) → unkn0_encode alloc (c ∷ cs) ≡ fault
  unfolding unkn0_encode unkn0_fill
  unkn0_encode-fault c cs =
      let some_bits : (length (c ∷ cs) == 0) ≡ false = ground arith in
      rw (some_bits, none_left, write-nil) refl

  -- Where `malloc` finds no memory, and a null pointer is a block of no places, both encoders and
  -- `string2bytes` fault on every string that is not empty, and `bytes2string` for every positive
  -- number of bits.
  pub codecs-fault :
      (c : ℕ) (cs samples : List ℕ) (nbbits : ℕ)
      → 0 < nbbits
      → (nec_encode alloc (c ∷ cs) ≡ fault)
        × (unkn0_encode alloc (c ∷ cs) ≡ fault)
        × (string2bytes alloc (c ∷ cs) ≡ fault)
        × (bytes2string alloc samples nbbits ≡ fault)
  codecs-fault c cs samples nbbits positive = (
    nec_encode-fault c cs,
    unkn0_encode-fault c cs,
    string2bytes-fault c cs,
    bytes2string-fault samples nbbits positive,
  )
