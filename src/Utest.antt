-- ===== src/Utest.antt =====
-- The unit tests of ircodec/src (`UTEST_bitsops`, `UTEST_nec`, `UTEST_unkn0`): each function gives
-- whether all assertions hold. An array holds just the words that the test has put into it.
pub mod Nec
pub mod Unkn0
use Prim.Native.String.{String}
use irbridge.Base.{
  ℕ, zero, suc, ◌+◌, Bool, true, false, ◌&&◌, Option, none, some, List, [], ◌∷◌, Outcome, ok,
  out_of_fuel, ◌>>=◌, length, drop, get_or, codes, ◌++◌, ltb, ◌==◌, if◌then◌else◌, bit_or,
}
use irbridge.Bitops.{string2bytes, bytes2string}
use irbridge.Decoder.{DecodeBuf, Decoded, Encoded}
use irbridge.Decoder.Protocol.{Protocol}
use irbridge.Decoder.Refine.{bytes}
use irbridge.Lirc.{lirc_size, pulse_bit}
use irbridge.Loopback.{words_of}

-- `strncmp(a, b, n) == 0`, for two strings with their zeros.
unfoldable pub strncmp : List ℕ → List ℕ → ℕ → Bool
strncmp a b zero = true
strncmp [] b (suc n) = false
strncmp (x ∷ a) [] (suc n) = false
strncmp (x ∷ a) (y ∷ b) (suc n) =
    let rest = strncmp a b n in if x == y then (if x == 0 then true else rest) else false

-- A literal with its zero.
abbrev pub literal : String → List ℕ
literal text = codes text ++ (0 ∷ [])

-- `PULSE_BIT | duration`
abbrev pub mark : ℕ → ℕ
mark d = bit_or pulse_bit d

-- `out == NULL`
abbrev pub is_null : Option (List ℕ) → Bool
is_null none = true
is_null (some _) = false

-- `out[i] == v`
abbrev pub at : Option (List ℕ) → ℕ → ℕ → Bool
at out i v = get_or (words_of out) i (suc v) == v

-- What the tests assert of a call: the value returned, how many words `in` has been moved past of
-- `count`, and the string.
abbrev pub returned : ℕ → Decoded → Bool
returned n d = d.ret == n

abbrev pub past : ℕ → ℕ → Decoded → Bool
past count moved d = length d.rest + moved == count

abbrev pub reads : String → Decoded → Bool
reads text d = strncmp d.state.buff (literal text) d.state.idx

-- `do { i++; n = DECODE(&in, &len); switch (i) { ... } if (n == 1) RESET(); } while (len > 0);`
-- with the assertions of each round; `fuel` bounds the rounds.
unfoldable pub calls : Protocol → ℕ → List (Decoded → Bool) → List ℕ → ℕ → DecodeBuf → Outcome Bool
calls p zero checks words len s = out_of_fuel
calls p (suc fuel) checks words len s = do
  d ← p.decode words len s
  s ← if d.ret == 1 then p.reset d.state else ok d.state
  let rest = calls p fuel (drop 1 checks) d.rest d.len s
  more ← if ltb 0 d.len then rest else ok true
  ok (get_or checks 0 (λ _. true) d && more)

unfoldable pub utest_bitsops : (ℕ → List ℕ) → Outcome Bool
utest_bitsops alloc = do
  a ← string2bytes alloc (codes "10001000")
  b ← string2bytes alloc (codes "1")
  c ← string2bytes alloc []
  d ← string2bytes alloc (codes "100001001")
  e ← bytes2string alloc (0 ∷ 0 ∷ []) 0
  f ← bytes2string alloc (0x01 ∷ 0 ∷ []) 8
  g ← bytes2string alloc (0x01 ∷ 0 ∷ []) 7
  h ← bytes2string alloc (0x84 ∷ 0x8f ∷ []) 9
  i ← bytes2string alloc (0x85 ∷ 0x8f ∷ []) 16
  ok (
      a.count == 1
      && at a.out 0 0x88
      && b.count == 1
      && at b.out 0 0x80
      && is_null c.out
      && c.count == 0
      && d.count == 2
      && at d.out 0 0x84
      && at d.out 1 0x80
      && is_null e
      && strncmp (words_of f) (literal "00000001") 8
      && strncmp (words_of g) (literal "0000000") 7
      && strncmp (words_of h) (literal "100001001") 9
      && strncmp (words_of i) (literal "1000010110001111") 16)
