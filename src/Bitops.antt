-- ===== src/Bitops.antt =====
-- ircodec/src/bitops.c: strings of the characters '0' and '1' to bytes, and back. A string is the
-- list of its characters with no terminating zero; a `sample_t` is a number below 256.
pub mod Packing
pub mod Ending
pub mod Unpacking
pub mod Tables
pub mod RoundTrip
pub mod Places
use irbridge.Base.{
  ℕ, zero, suc, ◌+◌, ◌-◌, ◌*◌, ◌/◌, ◌%◌, ◌^◌, Option, none, some, List, [], ◌∷◌, Outcome, ok, ◌>>=◌,
  length, write, read, ltb, ◌==◌, not, if◌then◌else◌, bit_and,
}

-- `(nbbits / 8) + ((nbbits % 8) ? 1 : 0)`
abbrev pub nb_bytes : ℕ → ℕ
nb_bytes nbbits = nbbits / 8 + (if nbbits % 8 == 0 then 0 else 1)

-- The locals of the loop: `data` and `b`, `j` and the block `*pOut`.
pub record Packer : Type 0 where
  pub data' : ℕ
  pub b : ℕ
  pub j : ℕ
  pub out : List ℕ

-- `if (c == '1') data += 1 << b;` on an unsigned byte.
abbrev pub add_bit : ℕ → ℕ → ℕ → ℕ
add_bit data' b c = if c == b'1' then (data' + 2 ^ b) % 2 ^ 8 else data'

unfoldable pub pack_char : ℕ → Packer → Outcome Packer
pack_char c s =
    let b = s.b - 1 in
    let data' = add_bit s.data' b c in
    if b == 0
    then (write s.out s.j data' >>= λ out. ok (record { data' = 0; b = 8; j = s.j + 1; out = out }))
    else ok (record s { data' = data'; b = b })

unfoldable pub pack_chars : List ℕ → Packer → Outcome Packer
pack_chars [] s = ok s
pack_chars (c ∷ cs) s = pack_char c s >>= pack_chars cs

-- The bytes and their number; `none` is NULL.
pub record Bytes : Type 0 where
  pub out : Option (List ℕ)
  pub count : ℕ

-- `alloc` is `malloc` for an array of bytes.
unfoldable pub string2bytes : (ℕ → List ℕ) → List ℕ → Outcome Bytes
string2bytes alloc text =
    let nbbits = length text in
    let count = nb_bytes nbbits in
    if nbbits == 0
    then ok (record { out = none; count = 0 })
    else (pack_chars text (record { data' = 0; b = 8; j = 0; out = alloc count }) >>= λ s.
        (if s.b == 8 then ok s.out else write s.out s.j s.data') >>= λ out.
        ok (record { out = some out; count = count }))

-- `(x & (1 << (7-b))) ? '1' : '0'`
abbrev pub bit_char : ℕ → ℕ → ℕ
bit_char x b = if bit_and x (2 ^ (7 - b)) == 0 then b'0' else b'1'

module _ (samples : List ℕ) (nbbits : ℕ) where
  -- The inner loop from `b` on, at most `left` rounds.
  unfoldable pub unpack_byte : ℕ → ℕ → ℕ → List ℕ → Outcome (List ℕ)
  unpack_byte zero i b out = ok out
  unpack_byte (suc left) i b out =
      let next = read samples i >>= λ x.
      write out (8 * i + b) (bit_char x b) >>= unpack_byte left i (b + 1) in
      if ltb (8 * i + b) nbbits then next else ok out

  -- The outer loop from `i` on, `left` rounds.
  unfoldable pub unpack_bytes : ℕ → ℕ → List ℕ → Outcome (List ℕ)
  unpack_bytes zero i out = ok out
  unpack_bytes (suc left) i out = unpack_byte 8 i 0 out >>= unpack_bytes left (i + 1)

-- The characters with the terminating zero; `none` is NULL.
unfoldable pub bytes2string : (ℕ → List ℕ) → List ℕ → ℕ → Outcome (Option (List ℕ))
bytes2string alloc samples nbbits =
    if nbbits == 0
    then ok none
    else (unpack_bytes samples nbbits (nb_bytes nbbits) 0 (alloc (nbbits + 1)) >>= λ out.
        write out nbbits 0 >>= λ out. ok (some out))
