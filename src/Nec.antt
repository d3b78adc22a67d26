-- ===== src/Nec.antt =====
-- ircodec/src/ir_nec.c and ircodec/include/ir_nec.h: the NEC codec.
pub mod Symbols
pub mod Encode
pub mod Reading
use irbridge.Base.{
  ℕ, ◌+◌, ◌-◌, ◌*◌, ◌/◌, List, none, some, [], ◌∷◌, Outcome, ok, fault, ◌>>=◌, write, ltb, ◌==◌,
  not, if◌then◌else◌, length,
}
use irbridge.Lirc.{is_pulse, duration, lirc_size, size_sub}
use irbridge.Decoder.{DecodeBuf, Decoded, Encoded, buff_size, clear}

abbrev pub nec_ts : ℕ
nec_ts = 2500

abbrev pub nec_td : ℕ
nec_td = 560 + (1680 - 560) / 2

abbrev pub nec_thead_pulse : ℕ
nec_thead_pulse = 9000

abbrev pub nec_thead_space : ℕ
nec_thead_space = nec_thead_pulse / 2

abbrev pub nec_t0 : ℕ
nec_t0 = 560

abbrev pub nec_t1 : ℕ
nec_t1 = 1680

unfoldable pub nec_decode_reset : DecodeBuf → Outcome DecodeBuf
nec_decode_reset s = do cleared ← clear buff_size s.buff; ok (record { buff = cleared; idx = 0 })

-- The bit of a space goes into the buffer, unless that is full; a pulse is dropped.
unfoldable pub nec_store : ℕ → DecodeBuf → Outcome DecodeBuf
nec_store word s =
    if ltb s.idx (buff_size - 2)
    then if not (is_pulse word)
      then (write s.buff s.idx (if ltb nec_td (duration word) then b'1' else b'0') >>= λ buff.
          ok (record { buff = buff; idx = s.idx + 1 }))
      else ok s
    else ok s

-- `words` are the words that can be read from `*pIn`; a read behind them is a fault.
unfoldable pub nec_decode : List ℕ → ℕ → DecodeBuf → Outcome Decoded
nec_decode [] len s =
    if len == 0 then ok (record { ret = 0; rest = []; len = 0; state = s }) else fault
nec_decode (word ∷ words) len s =
    let left = size_sub len lirc_size in
    let next = nec_store word s >>= nec_decode words left in
    if len == 0
    then ok (record { ret = 0; rest = word ∷ words; len = 0; state = s })
    else if ltb nec_ts (duration word)
    then ok (record { ret = if ltb 0 s.idx then 1 else 0; rest = words; len = left; state = s })
    else next

-- The loop over the characters, from index `n` of `out`; it returns the index reached.
unfoldable pub nec_fill : List ℕ → ℕ → List ℕ → Outcome (List ℕ × ℕ)
nec_fill [] n out = ok (out, n)
nec_fill (c ∷ cs) n out = do
  out ← write out n nec_t0
  out ← write out (n + 1) (if c == b'1' then nec_t1 else nec_t0)
  nec_fill cs (n + 2) out

-- `alloc` is `malloc` for an array of words.
unfoldable pub nec_encode : (ℕ → List ℕ) → List ℕ → Outcome Encoded
nec_encode alloc text =
    let nbbits = length text in
    let size = (nbbits * 2 + 2 + 1) * lirc_size in
    if nbbits == 0 then ok (record { size = 0; out = none }) else (do
      out ← write (alloc (size / lirc_size)) 0 nec_thead_pulse
      out ← write out 1 nec_thead_space
      filled ← nec_fill text 2 out
      out ← write filled.0 filled.1 nec_t0
      ok (record { size = size; out = some out }))
