-- ===== src/Decoder/Protocol.antt =====
-- What a codec gives to the code that drives it: the operations of ircodec/src/ir_nec.c or of
-- ircodec/src/ir_unkn0.c, and their laws in terms of the symbol that each word stands for.
use irbridge.Base.{
  ℕ, suc, ◌+◌, ◌-◌, List, [], ◌∷◌, ◌++◌, Outcome, ok, fault, ◌>>=◌, ◌≡◌, length, replicate, write,
  ltb, if◌then◌else◌,
}
use irbridge.Lirc.{lirc_size, size_sub}
use irbridge.Decoder.{DecodeBuf, Decoded, buff_size}
use irbridge.Decoder.Frames.{Symbol, gap, pulse, bit}

-- The buffer that holds a string of bits, and zeros behind it.
unfoldable pub buf_of : List ℕ → DecodeBuf
buf_of bits = record { buff = bits ++ replicate (buff_size - length bits) 0; idx = length bits }

-- The store of one bit, dropped where the buffer is full.
unfoldable pub store : ℕ → DecodeBuf → Outcome DecodeBuf
store c s =
    if ltb s.idx (buff_size - 2)
    then (write s.buff s.idx c >>= λ buff. ok (record { buff = buff; idx = s.idx + 1 }))
    else ok s

-- What follows the read of a word; `left` bytes remain.
unfoldable pub dispatch :
    Symbol → List ℕ → ℕ → DecodeBuf → (DecodeBuf → Outcome Decoded) → Outcome Decoded
dispatch gap words left s next =
    ok (record { ret = if ltb 0 s.idx then 1 else 0; rest = words; len = left; state = s })
dispatch pulse words left s next = next s
dispatch (bit c) words left s next = store c s >>= next

abbrev pub exhausted : List ℕ → DecodeBuf → Decoded
exhausted words s = record { ret = 0; rest = words; len = 0; state = s }

pub record Protocol : Type 0 where
  pub classify : ℕ → Symbol
  pub decode : List ℕ → ℕ → DecodeBuf → Outcome Decoded
  pub reset : DecodeBuf → Outcome DecodeBuf
  pub decode-zero : (words : List ℕ) (s : DecodeBuf) → decode words 0 s ≡ ok (exhausted words s)
  pub decode-nil : (len : ℕ) (s : DecodeBuf) → decode [] (suc len) s ≡ fault
  pub decode-cons :
      (w : ℕ) (words : List ℕ) (len : ℕ) (s : DecodeBuf)
      → decode (w ∷ words) (suc len) s
        ≡ dispatch
            (classify w)
            words
            (size_sub (suc len) lirc_size)
            s
            (decode words (size_sub (suc len) lirc_size))
  pub reset_lem : (s : DecodeBuf) → length s.buff ≡ buff_size → reset s ≡ ok (buf_of [])
