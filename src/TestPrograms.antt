-- ===== src/TestPrograms.antt =====
-- raspberrypi/ir-test0 to ir-test3: programs that send frames at the press of a key and print what
-- the infrared driver gives. They differ in the codec, the keys and what they print of a frame. The
-- mode of the terminal is in Keyboard, and that of the device has no part in it.
pub mod Levels
pub mod Listening
pub mod Ending
pub mod Remote
pub mod Weight
pub mod Keyboard
use irbridge.Base.{
  ℕ, zero, suc, ◌+◌, ◌-◌, ◌*◌, ◌/◌, Bool, true, false, ◌||◌, Option, none, some, List, [], ◌∷◌,
  ◌++◌, Outcome, ok, fault, ◌>>=◌, length, take, ltb, ◌==◌, if◌then◌else◌, c_string, codes,
}
use irbridge.Bitops.{string2bytes, bytes2string}
use irbridge.Daemon.{into}
use irbridge.Daemon.Words.{words_in}
use irbridge.Decoder.{DecodeBuf, Encoded}
use irbridge.Decoder.Drain.{drain}
use irbridge.Decoder.Protocol.{Protocol}
use irbridge.Lirc.{lirc_size, is_pulse, duration}
use irbridge.Loopback.{deref, words_of}
use irbridge.Nec.{nec_encode}
use irbridge.Nec.Symbols.{nec}
use irbridge.Unkn0.{unkn0_encode}
use irbridge.Unkn0.Symbols.{unkn0}

-- What a program prints.
pub data Message : Type 0 where
  cannot_open help quit : Message
  unknown : ℕ → Message
  level : Bool → ℕ → Message
  sending : List ℕ → ℕ → List ℕ → Message
  frame : ℕ → List ℕ → List ℕ → Message

-- The messages so far, the words that `write` has given to the driver, and `buffer`, with the
-- decoder's globals.
pub record Terminal : Type 0 where
  pub printed : List Message
  pub written : List (List ℕ)
  pub buffer : List ℕ
  pub decoder : DecodeBuf

-- Whether `end` is set, and the state.
abbrev pub Stepped : Type 0
Stepped = Bool × Terminal

-- What a round is given: the key, if there is one, and what `read` returns, `none` for an error.
abbrev pub Input : Type 0
Input = Option ℕ × Option (List ℕ)

-- The loop of ir-test0 over the words in the buffer; `left` is `c - p`.
unfoldable pub print_levels : List ℕ → ℕ → List Message → Outcome (List Message)
print_levels [] left out = if ltb 0 left then fault else ok out
print_levels (w ∷ ws) left out =
    let rest = print_levels ws (left - lirc_size) (out ++ (level (is_pulse w) (duration w) ∷ [])) in
    if ltb 0 left then rest else ok out

unfoldable pub test0_round : Option ℕ → Option (List ℕ) → Terminal → Outcome Stepped
test0_round key none t = ok (elim key [ none ↦ false | some _ ↦ true ], t)
test0_round key (some bytes) t =
    let buffer = into t.buffer bytes in
    print_levels (words_in buffer) (length bytes) t.printed >>= λ out.
    ok (elim key [ none ↦ false | some _ ↦ true ], record t { printed = out; buffer = buffer })

module _ (alloc : ℕ → List ℕ) where
  -- The body of the draining loop; ir-test3 prints no bytes.
  unfoldable pub print_line : Bool → DecodeBuf → List Message → Outcome (List Message)
  print_line with_bytes s out = do
    text ← c_string s.buff
    r ← string2bytes alloc text
    let bytes = take r.count (words_of r.out)
    ok (out ++ (frame s.idx text (if with_bytes then bytes else []) ∷ []))

  -- The second half of a round.
  unfoldable pub listen : Protocol → Bool → Option (List ℕ) → Terminal → Outcome Terminal
  listen p with_bytes none t = ok t
  listen p with_bytes (some bytes) t =
      let buffer = into t.buffer bytes in
      let words = words_in buffer in
      if ltb 0 (length bytes)
      then (drain p (print_line with_bytes) (suc (length words)) words (length bytes) t.decoder
            t.printed
          >>= λ r. ok (record t { printed = r.0; buffer = buffer; decoder = r.1 }))
      else ok (record t { buffer = buffer })

  -- What a key does with its test bytes.
  unfoldable pub send_bits :
      (List ℕ → Outcome Encoded) → List ℕ → List ℕ → ℕ → Terminal → Outcome Terminal
  send_bits encode name test nbbits t = do
    bits ← bytes2string alloc test nbbits
    text ← deref bits >>= c_string
    ir ← encode text
    ok (record t {
      printed = t.printed ++ (sending name ir.size text ∷ []);
      written = t.written ++ (take (ir.size / lirc_size) (words_of ir.out) ∷ []);
    })

  abbrev ends : ℕ → Bool
  ends c = c == 3 || c == 4 || c == b'q'

  abbrev say : List Message → Terminal → Terminal
  say ms t = record t { printed = t.printed ++ ms }

  -- The `switch` of ir-test2.
  unfoldable pub test2_key : ℕ → Terminal → Outcome Stepped
  test2_key c t =
      if ends c
      then ok (true, t)
      else if c == b'1'
      then (send_bits (nec_encode alloc) (codes "ON") (0x0 ∷ 0xf7 ∷ 0xc0 ∷ 0x3f ∷ []) 32 t >>= λ t'.
          ok (false, t'))
      else if c == b'2'
      then (send_bits (nec_encode alloc) (codes "OFF") (0x0 ∷ 0xf7 ∷ 0x40 ∷ 0xbf ∷ []) 32 t
          >>= λ t'. ok (false, t'))
      else ok (false, say (if c == b'h' then help ∷ [] else unknown c ∷ help ∷ []) t)

  -- The `switch` of ir-test3.
  unfoldable pub test3_key : ℕ → Terminal → Outcome Stepped
  test3_key c t =
      let weight = 0x54 ∷ 0x7f ∷ 0xfc ∷ 0x87 ∷ 0x58 ∷ [] in
      if ends c
      then ok (true, t)
      else if c == b'1'
      then (send_bits (unkn0_encode alloc) (codes "88.8") weight 39 t >>= λ t'. ok (false, t'))
      else ok (false, say (if c == b'h' then help ∷ [] else unknown c ∷ help ∷ []) t)

  -- Any key ends ir-test1, after the read of its round.
  unfoldable pub test1_round : Option ℕ → Option (List ℕ) → Terminal → Outcome Stepped
  test1_round key bytes t =
      listen nec true bytes t >>= λ t'. ok (elim key [ none ↦ false | some _ ↦ true ], t')

  abbrev press : (ℕ → Terminal → Outcome Stepped) → Option ℕ → Terminal → Outcome Stepped
  press on_key none t = ok (false, t)
  press on_key (some c) t = on_key c t

  unfoldable pub test2_round : Option ℕ → Option (List ℕ) → Terminal → Outcome Stepped
  test2_round key bytes t =
      press test2_key key t >>= λ r. listen nec true bytes r.1 >>= λ t'. ok (r.0, t')

  unfoldable pub test3_round : Option ℕ → Option (List ℕ) → Terminal → Outcome Stepped
  test3_round key bytes t =
      press test3_key key t >>= λ r. listen unkn0 false bytes r.1 >>= λ t'. ok (r.0, t')

-- `while (!end)`, until the list of inputs is exhausted.
unfoldable pub rounds :
    (Option ℕ → Option (List ℕ) → Terminal → Outcome Stepped)
    → List Input
    → Terminal
    → Outcome Stepped
rounds step [] t = ok (false, t)
rounds step (i ∷ is) t =
    step i.0 i.1 t >>= λ r. let rest = rounds step is r.1 in if r.0 then ok r else rest

-- `main`: the status that it returns, or `none` while it still waits, and the state.
unfoldable pub program :
    (Option ℕ → Option (List ℕ) → Terminal → Outcome Stepped)
    → List Message
    → Bool
    → List Input
    → Terminal
    → Outcome (Option ℕ × Terminal)
program step bye opened inputs t =
    let failed : Terminal = record t { printed = t.printed ++ (cannot_open ∷ []) } in
    if opened
    then (rounds step inputs t >>= λ r.
        let done : Terminal = record r.1 { printed = r.1.printed ++ bye } in
        ok (if r.0 then (some 0, done) else (none, r.1)))
    else ok (some 1, failed)

unfoldable pub test0_main : Bool → List Input → Terminal → Outcome (Option ℕ × Terminal)
test0_main = program test0_round []

module _ (alloc : ℕ → List ℕ) where
  unfoldable pub test1_main : Bool → List Input → Terminal → Outcome (Option ℕ × Terminal)
  test1_main = program (test1_round alloc) []

  unfoldable pub test2_main : Bool → List Input → Terminal → Outcome (Option ℕ × Terminal)
  test2_main = program (test2_round alloc) (quit ∷ [])

  unfoldable pub test3_main : Bool → List Input → Terminal → Outcome (Option ℕ × Terminal)
  test3_main = program (test3_round alloc) (quit ∷ [])
