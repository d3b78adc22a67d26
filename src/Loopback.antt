-- ===== src/Loopback.antt =====
-- ircodec/src/main.c: `nec` and `unkn0` send some bytes through a codec, simulate the reception and
-- decode what was received. The two functions differ in the codec alone.
pub mod Codecs
pub mod Laws
pub mod Memory
use irbridge.Base.{
  ℕ, suc, ◌+◌, ◌*◌, ◌/◌, Option, none, some, List, [], ◌∷◌, ◌++◌, Outcome, ok, fault, ◌>>=◌, length,
  c_string,
}
use irbridge.Lirc.{lirc_size}
use irbridge.Bitops.{Bytes, string2bytes, bytes2string}
use irbridge.Decoder.{DecodeBuf, Encoded}
use irbridge.Decoder.Drain.{drain}
use irbridge.Decoder.Protocol.{Protocol}
use irbridge.Encoder.{received}
use irbridge.Nec.{nec_encode}
use irbridge.Nec.Symbols.{nec}
use irbridge.Unkn0.{unkn0_encode}
use irbridge.Unkn0.Symbols.{unkn0}

-- An array that is read although it may be NULL.
abbrev pub deref : Option (List ℕ) → Outcome (List ℕ)
deref none = fault
deref (some a) = ok a

abbrev pub words_of : Option (List ℕ) → List ℕ
words_of none = []
words_of (some a) = a

-- What is printed of one frame: the decoded string and its bytes.
abbrev pub Printed : Type 0
Printed = List (List ℕ × List ℕ)

unfoldable pub print_frame : (ℕ → List ℕ) → DecodeBuf → Printed → Outcome Printed
print_frame alloc s out = do
  text ← c_string s.buff
  r ← string2bytes alloc text
  ok (out ++ ((text, words_of r.out) ∷ []))

module _ (alloc : ℕ → List ℕ) (p : Protocol) (encode : List ℕ → Outcome Encoded) where
  -- From the encoder on.
  pub send : List ℕ → DecodeBuf → Outcome (Printed × DecodeBuf)
  send text s = do
    ir ← encode text
    let ir2 = received 0 (words_of ir.out)
    let cir = ir.size / lirc_size
    s ← p.reset s
    drain p (print_frame alloc) (suc (length ir2)) ir2 ((cir + 1) * lirc_size) s []

  pub loopback : List ℕ → ℕ → DecodeBuf → Outcome (Printed × DecodeBuf)
  loopback test nbbits s = do
    bits ← bytes2string alloc test nbbits
    text ← deref bits >>= c_string
    send text s

pub nec_loopback : (ℕ → List ℕ) → List ℕ → ℕ → DecodeBuf → Outcome (Printed × DecodeBuf)
nec_loopback alloc = loopback alloc nec (nec_encode alloc)

pub unkn0_loopback : (ℕ → List ℕ) → List ℕ → ℕ → DecodeBuf → Outcome (Printed × DecodeBuf)
unkn0_loopback alloc = loopback alloc unkn0 (unkn0_encode alloc)
