-- ===== src/Unkn0.antt =====
-- ircodec/src/ir_unkn0.c and ircodec/include/ir_unkn0.h: the codec of the Starfrit scale.
pub mod Symbols
pub mod Encode
pub mod Reading
use irbridge.Base.{
  ℕ, ◌+◌, ◌-◌, ◌*◌, ◌/◌, ◌&&◌, List, none, some, [], ◌∷◌, Outcome, ok, fault, ◌>>=◌, write, ltb,
  ◌==◌, not, if◌then◌else◌, length,
}
use irbridge.Lirc.{is_pulse, duration, lirc_size, size_sub}
use irbridge.Decoder.{DecodeBuf, Decoded, Encoded, buff_size, clear}

abbrev pub unkn0_ts : ℕ
unkn0_ts = 10000

abbrev pub unkn0_td : ℕ
unkn0_td = 800

abbrev pub unkn0_t0 : ℕ
unkn0_t0 = 500

abbrev pub unkn0_t1 : ℕ
unkn0_t1 = 1000

unfoldable pub unkn0_decode_reset : DecodeBuf → Outcome DecodeBuf
unkn0_decode_reset s = do cleared ← clear buff_size s.buff; ok (record { buff = cleared; idx = 0 })

-- The bit of a space goes into the buffer, unless that is full; a pulse is dropped.
unfoldable pub unkn0_store : ℕ → DecodeBuf → Outcome DecodeBuf
unkn0_store word s =
    if ltb s.idx (buff_size - 2)
    then if not (is_pulse word)
      then (write s.buff s.idx (if ltb unkn0_td (duration word) then b'1' else b'0') >>= λ buff.
          ok (record { buff = buff; idx = s.idx + 1 }))
      else ok s
    else ok s

-- `words` are the words that can be read from `*pIn`; a read behind them is a fault.
unfoldable pub unkn0_decode : List ℕ → ℕ → DecodeBuf → Outcome Decoded
unkn0_decode [] len s =
    if len == 0 then ok (record { ret = 0; rest = []; len = 0; state = s }) else fault
unkn0_decode (word ∷ words) len s =
    let left = size_sub len lirc_size in
    let next = unkn0_store word s >>= unkn0_decode words left in
    if len == 0
    then ok (record { ret = 0; rest = word ∷ words; len = 0; state = s })
    else if not (is_pulse word) && ltb unkn0_ts (duration word)
    then ok (record { ret = if ltb 0 s.idx then 1 else 0; rest = words; len = left; state = s })
    else next

-- The loop over the characters, from index `n` of `out`; it returns the index reached.
unfoldable pub unkn0_fill : List ℕ → ℕ → List ℕ → Outcome (List ℕ × ℕ)
unkn0_fill [] n out = ok (out, n)
unkn0_fill (c ∷ cs) n out = do
  out ← write out n unkn0_t0
  out ← write out (n + 1) (if c == b'1' then unkn0_t1 else unkn0_t0)
  unkn0_fill cs (n + 2) out

-- `alloc` is `malloc` for an array of words.
unfoldable pub unkn0_encode : (ℕ → List ℕ) → List ℕ → Outcome Encoded
unkn0_encode alloc text =
    let nbbits = length text in
    let size = (nbbits * 2 + 1) * lirc_size in
    if nbbits == 0 then ok (record { size = 0; out = none }) else (do
      filled ← unkn0_fill text 0 (alloc (size / lirc_size))
      out ← write filled.0 filled.1 unkn0_t0
      ok (record { size = size; out = some out }))
