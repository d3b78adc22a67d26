-- ===== src/Decoder.antt =====
-- What the decoders of ircodec/src/ir_nec.c and ircodec/src/ir_unkn0.c share: the global buffer
-- with its index, the result of one call, and the clearing loop of the reset functions.
pub mod Frames
pub mod Protocol
pub mod Refine
pub mod Drain
use irbridge.Base.{
  ℕ, zero, suc, Option, List, [], ◌∷◌, Outcome, ok, fault, ◌>>=◌, ◌≡◌, refl, length, replicate,
  arith,
}

-- `..._DECODE_BUFF_SIZE`
abbrev pub buff_size : ℕ
buff_size = 1024

-- `..._DECODE_BUFF` and `..._DECODE_BUF_IDX`.
pub record DecodeBuf : Type 0 where
  pub buff : List ℕ
  pub idx : ℕ

-- A decoder's return value, the pointer and length that it leaves to its caller, as the words
-- that can be read from the pointer and as a number of bytes, and the buffer.
pub record Decoded : Type 0 where
  pub ret : ℕ
  pub rest : List ℕ
  pub len : ℕ
  pub state : DecodeBuf

-- An encoder's return value in bytes, and `*pOut` as its words; `none` is NULL.
pub record Encoded : Type 0 where
  pub size : ℕ
  pub out : Option (List ℕ)

-- `for (i = 0; i < n; i++) a[i] = '\0';`
unfoldable pub clear : ℕ → List ℕ → Outcome (List ℕ)
clear zero a = ok a
clear (suc n) [] = fault
clear (suc n) (x ∷ a) = clear n a >>= λ a'. ok (0 ∷ a')

pub clear-zeros : (n : ℕ) (a : List ℕ) → length a ≡ n → clear n a ≡ ok (replicate n 0)
unfolding clear
clear-zeros zero [] h = refl
clear-zeros zero (x ∷ a) h = absurd (omega arith)
clear-zeros (suc n) [] h = absurd (omega arith)
clear-zeros (suc n) (x ∷ a) h = rw (clear-zeros n a (omega arith))
