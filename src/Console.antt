-- ===== src/Console.antt =====
-- The Linux client (clients/linux/main.c and client.c): one round of its loop, for a line from the
-- keyboard or bytes from the server.
pub mod Sending
pub mod Weight
pub mod Relayed
pub mod Session
pub mod Safety
pub mod Partial
pub mod Showing
pub mod Watching
pub mod Bridge
use irbridge.Base.{
  ℕ, suc, ◌+◌, ◌*◌, ◌/◌, ◌^◌, Bool, true, false, ◌||◌, Option, none, some, List, [], ◌∷◌, ◌++◌, map,
  Outcome, ok, ◌>>=◌, length, take, read, c_string, ◌==◌, if◌then◌else◌, bit_or,
}
use irbridge.Bitops.{string2bytes, bytes2string}
use irbridge.Decoder.{DecodeBuf, Encoded}
use irbridge.Decoder.Drain.{drain}
use irbridge.Lirc.{lirc_size}
use irbridge.Loopback.{deref, words_of}
use irbridge.Nec.{nec_encode}
use irbridge.Starfrit.{invert}
use irbridge.Unkn0.{unkn0_encode}
use irbridge.Unkn0.Symbols.{unkn0}
use irbridge.Daemon.Words.{words_in}

-- The words sent, the weights shown, in tenths of a kilogram, and the decoder.
pub record Console : Type 0 where
  pub sent_words : List (List ℕ)
  pub shown : List ℕ
  pub decoder : DecodeBuf

-- Whether the loop is left, and the state.
abbrev pub Stepped : Type 0
Stepped = Bool × Console

-- The loop that keeps the last character in front of the line's end; `c` holds anything at first.
unfoldable pub last_key : List ℕ → ℕ → ℕ
last_key [] c = c
last_key (t ∷ line) c = let rest = last_key line t in if t == 10 then c else rest

-- `write_server(sock, (void *)ir, nir)`; a `send` that fails or is cut short is only reported.
unfoldable pub write_server : Encoded → Console → Console
write_server ir σ = record σ {
  sent_words = σ.sent_words ++ (take (ir.size / lirc_size) (words_of ir.out) ∷ []);
}

-- What the keys 1 to 3 do with their test bytes.
unfoldable pub send_test :
    (ℕ → List ℕ) → (List ℕ → Outcome Encoded) → List ℕ → ℕ → Console → Outcome Console
send_test alloc encode test nbbits σ = do
  bits ← bytes2string alloc test nbbits
  text ← deref bits >>= c_string
  ir ← encode text
  ok (write_server ir σ)

unfoldable pub on_key : (ℕ → List ℕ) → ℕ → Console → Outcome Stepped
on_key alloc c σ =
    if c == b'q'
    then ok (true, σ)
    else if c == b'1'
    then (send_test alloc (nec_encode alloc) (0x0 ∷ 0xf7 ∷ 0xc0 ∷ 0x3f ∷ []) 32 σ >>= λ τ.
        ok (false, τ))
    else if c == b'2'
    then (send_test alloc (nec_encode alloc) (0x0 ∷ 0xf7 ∷ 0x40 ∷ 0xbf ∷ []) 32 σ >>= λ τ.
        ok (false, τ))
    else if c == b'3'
    then (send_test alloc (unkn0_encode alloc) (0x54 ∷ 0x7f ∷ 0xfc ∷ 0x8c ∷ 0x5c ∷ []) 39 σ >>= λ τ.
        ok (false, τ))
    else ok (false, σ)

-- What is done with a frame, up to `RESET`.
unfoldable pub show_frame : (ℕ → List ℕ) → DecodeBuf → List ℕ → Outcome (List ℕ)
show_frame alloc s shown = do
  text ← c_string s.buff
  r ← string2bytes alloc text
  let decoded = map invert (words_of r.out)
  if s.idx == 39
      then (read decoded 0 >>= λ d0.
          (if d0 == 0xab
            then (read decoded 2 >>= λ d2.
                read decoded 3 >>= λ d3. ok (shown ++ (bit_or (d2 * 2 ^ 8) d3 ∷ [])))
            else ok shown))
      else ok shown

-- `received` is what `recv` has returned: an error is read as an end.
unfoldable pub read_server : Option (List ℕ) → List ℕ
read_server none = []
read_server (some bytes) = bytes

-- `buffer` is what lies in the buffer after the read, of `len` bytes.
unfoldable pub from_server : (ℕ → List ℕ) → List ℕ → ℕ → Console → Outcome Stepped
from_server alloc buffer len σ =
    let words = words_in buffer in
    if len == 0
    then ok (true, σ)
    else (drain unkn0 (show_frame alloc) (suc (length words)) words len σ.decoder σ.shown >>= λ r.
        ok (false, record σ { shown = r.0; decoder = r.1 }))
