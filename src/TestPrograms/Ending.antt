-- ===== src/TestPrograms/Ending.antt =====
-- The loop of ir-test1 (raspberrypi/ir-test1/main.c:59) from its start to the key that ends it.
use mathlib.Core.Path.{subst}
use irbridge.Base.{
  ℕ, ◌^◌, ◌<◌, ◌≡◌, refl, sym, ap, ◌∙◌, Bool, true, Option, none, some, List, [], ◌∷◌, ◌++◌,
  append_assoc, append-nil, ok, All, Allocates, arith,
}
use irbridge.Chars.{IsBit}
use irbridge.Daemon.Words.{bytes_of, IsWord}
use irbridge.Decoder.Drain.Chunks.{open-Fits}
use irbridge.Decoder.Frames.{bit, Fits, cut, cut-append}
use irbridge.Decoder.Protocol.{Protocol, buf_of}
use irbridge.Decoder.Refine.{bytes}
use irbridge.FrameBits.{cut-Bits}
use irbridge.Nec.Symbols.{nec, nec_symbol}
use irbridge.TestPrograms.{Input, Terminal, listen, test1_round, rounds, program, test1_main}
use irbridge.TestPrograms.Listening.{line, lines, listen-lines}

-- What a read gives: some words, or nothing, where there is nothing to read.
abbrev pub heard : Option (List ℕ) → List ℕ
heard none = []
heard (some ws) = ws

abbrev pub given : Option (List ℕ) → Option (List ℕ)
given none = none
given (some ws) = some (bytes_of ws)

abbrev pub IsRead : Option (List ℕ) → Type 0
IsRead r = (bytes (heard r) < 2 ^ 32) × All IsWord (heard r)

abbrev pub stream : List (Option (List ℕ)) → List ℕ
stream [] = []
stream (r ∷ rs) = heard r ++ stream rs

-- Rounds without a key.
abbrev pub waiting : List (Option (List ℕ)) → List Input
waiting [] = []
waiting (r ∷ rs) = (none, given r) ∷ waiting rs

lines-append :
    (with_bytes : Bool) (fs gs : List (List ℕ))
    → lines with_bytes (fs ++ gs) ≡ lines with_bytes fs ++ lines with_bytes gs
lines-append with_bytes [] gs = refl
lines-append with_bytes (f ∷ fs) gs = ap (◌∷◌ (line with_bytes f)) (lines-append with_bytes fs gs)

module _ (p : Protocol) (with_bytes : Bool) where
  -- That the frames of some words have been printed, and nothing has been written.
  pub record Hears (ws bits : List ℕ) (t after : Terminal) : Type 0 where
    pub printed_is : after.printed ≡ t.printed ++ lines with_bytes (cut p.classify bits ws).frames
    pub written_is : after.written ≡ t.written
    pub decoder_is : after.decoder ≡ buf_of (cut p.classify bits ws).open_bits

  Hears-append :
      (ws vs bits : List ℕ) (t t' after : Terminal)
      → Hears ws bits t t'
      → Hears vs (cut p.classify bits ws).open_bits t' after
      → Hears (ws ++ vs) bits t after
  Hears-append ws vs bits t t' after h k =
      let c = cut p.classify bits ws in
      let d = cut p.classify c.open_bits vs in
      record {
        printed_is =
            k.printed_is
            ∙ ap (λ l. l ++ lines with_bytes d.frames) h.printed_is
            ∙ append_assoc t.printed (lines with_bytes c.frames) (lines with_bytes d.frames)
            ∙ ap (λ l. t.printed ++ l) (sym (lines-append with_bytes c.frames d.frames))
            ∙ ap (λ e. t.printed ++ lines with_bytes e.frames)
                (sym (cut-append p.classify bits ws vs));
        written_is = k.written_is ∙ h.written_is;
        decoder_is =
            k.decoder_is ∙ ap (λ e. buf_of e.open_bits) (sym (cut-append p.classify bits ws vs));
      }

  listen-Hears :
      (alloc : ℕ → List ℕ) (r : Option (List ℕ)) (bits : List ℕ) (t : Terminal)
      → ((w c : ℕ) → p.classify w ≡ bit c → IsBit c)
      → Allocates alloc
      → IsRead r
      → t.decoder ≡ buf_of bits
      → Fits bits
      → All IsBit bits
      → (after : Terminal) × (listen alloc p with_bytes (given r) t ≡ ok after)
        × Hears (heard r) bits t after
  unfolding listen cut
  listen-Hears alloc none bits t binary fresh h dec fits bs = (
    t,
    refl,
    record { printed_is = sym (append-nil t.printed); written_is = refl; decoder_is = dec },
  )
  listen-Hears alloc (some ws) bits t binary fresh h dec fits bs = (
    _,
    listen-lines alloc fresh with_bytes p binary ws bits t h.0 h.1 dec fits bs,
    record { printed_is = refl; written_is = refl; decoder_is = refl },
  )

pub nec-binary : (w c : ℕ) → nec_symbol w ≡ bit c → IsBit c
unfolding nec_symbol
nec-binary w c e = ground arith

module _ (alloc : ℕ → List ℕ) (fresh : Allocates alloc) where
  rounds-Hears :
      (rs : List (Option (List ℕ))) (last : Option (List ℕ)) (key : ℕ) (more : List Input)
      (bits : List ℕ) (t : Terminal)
      → All IsRead rs
      → IsRead last
      → t.decoder ≡ buf_of bits
      → Fits bits
      → All IsBit bits
      → (after : Terminal) × (rounds
            (test1_round alloc)
            (waiting rs ++ ((some key, given last) ∷ more))
            t
          ≡ ok (true, after))
        × Hears nec true (stream rs ++ heard last) bits t after
  unfolding rounds test1_round
  rounds-Hears [] last key more bits t hs h dec fits bs =
      let (after, e, hears) =
        listen-Hears nec true alloc last bits t nec-binary fresh h dec fits bs in
      (after, rw e refl, hears)
  rounds-Hears (r ∷ rs) last key more bits t hs h dec fits bs =
      let (t', e, hears) = listen-Hears nec true alloc r bits t nec-binary fresh hs.0 dec fits bs in
      let (after, e', rest) =
        rounds-Hears rs last key more (cut nec_symbol bits (heard r)).open_bits t' hs.1 h
          hears.decoder_is (open-Fits nec_symbol bits (heard r) fits)
          (cut-Bits nec_symbol nec-binary (heard r) bits bs) in
      (
        after,
        rw e e',
        subst (λ l. Hears nec true l bits t after)
            (sym (append_assoc (heard r) (stream rs) (heard last)))
            (Hears-append nec true (heard r) (stream rs ++ heard last) bits t t' after hears rest),
      )

  -- Let ir-test1 be started while its decoder holds a string of bits that fits, with an allocator
  -- that gives blocks of the size asked for. If each read returns nothing or some whole words, less
  -- than 2 ^ 32 bytes of them, the program returns 0 in the round in which a key is pressed first,
  -- whatever comes behind it. By then it has printed one line for each frame of the whole stream,
  -- in order, however the reads divide it, with the frame's bits and packed bytes; it has written
  -- nothing to the driver, and the decoder is left with the bits of the unfinished frame.
  pub test1_main_ends :
      (rs : List (Option (List ℕ))) (last : Option (List ℕ)) (key : ℕ) (more : List Input)
      (bits : List ℕ) (t : Terminal)
      → All IsRead rs
      → IsRead last
      → t.decoder ≡ buf_of bits
      → Fits bits
      → All IsBit bits
      → (after : Terminal) × (test1_main alloc true
            (waiting rs ++ ((some key, given last) ∷ more))
            t
          ≡ ok (some 0, after))
        × Hears nec true (stream rs ++ heard last) bits t after
  unfolding test1_main program
  test1_main_ends rs last key more bits t hs h dec fits bs =
      let (after, e, hears) = rounds-Hears rs last key more bits t hs h dec fits bs in
      (
        record after { printed = after.printed ++ [] },
        rw e refl,
        record {
          printed_is = append-nil after.printed ∙ hears.printed_is;
          written_is = hears.written_is;
          decoder_is = hears.decoder_is;
        },
      )
