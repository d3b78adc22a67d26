-- ===== src/TestPrograms/Listening.antt =====
-- The rounds of ir-test1 over a stream that is read in pieces.
use irbridge.Base.{
  ℕ, suc, ◌^◌, ◌<◌, ◌≡◌, refl, ap, ap₂, sym, ◌∙◌, Bool, true, some, List, [], ◌∷◌, ◌++◌,
  append_assoc, append-nil, ok, All, Allocates, length, length-append, drop, take_all, ltb,
  if◌then◌else◌, arith,
}
use irbridge.Bitops.Packing.{pack, length-pack, string2bytes-pack}
use irbridge.Chars.{c_string-buf_of, Bits-IsText, IsBit}
use irbridge.Daemon.{into}
use irbridge.Daemon.Words.{words_in, bytes_of, IsWord, length-bytes_of, words_in-bytes_of}
use irbridge.Decoder.Drain.Laws.{handle_all, drain-after_cut}
use irbridge.Decoder.Frames.{bit, Fits, cut}
use irbridge.Decoder.Protocol.{Protocol, buf_of}
use irbridge.Decoder.Refine.{bytes}
use irbridge.FrameBits.{IsFrame, cut-IsFrame}
use irbridge.TestPrograms.{Message, frame, Terminal, print_line, listen}

-- What is printed of a frame of bits.
abbrev pub line : Bool → List ℕ → Message
line with_bytes bits = frame (length bits) bits (if with_bytes then pack bits else [])

abbrev pub lines : Bool → List (List ℕ) → List Message
lines with_bytes [] = []
lines with_bytes (f ∷ fs) = line with_bytes f ∷ lines with_bytes fs

module _ (alloc : ℕ → List ℕ) (fresh : Allocates alloc) (with_bytes : Bool) where
  pub print_line-line :
      (bits : List ℕ) (out : List Message)
      → IsFrame bits
      → print_line alloc with_bytes (buf_of bits) out ≡ ok (out ++ (line with_bytes bits ∷ []))
  unfolding print_line buf_of
  print_line-line [] out h = absurd (omega (arith, h.some_bits))
  print_line-line (c ∷ cs) out h =
      rw
        (
          c_string-buf_of (c ∷ cs) h.fits (Bits-IsText (c ∷ cs) h.chars),
          string2bytes-pack alloc c cs fresh,
        )
        (ap
          (λ l. ok (out ++ (frame (length (c ∷ cs)) (c ∷ cs) (if with_bytes then l else []) ∷ [])))
          (take_all _ (pack (c ∷ cs)) (omega (arith, length-pack (c ∷ cs)))))

  handle_all-lines :
      (fs : List (List ℕ)) (out : List Message)
      → All IsFrame fs
      → handle_all (print_line alloc with_bytes) fs out ≡ ok (out ++ lines with_bytes fs)
  unfolding handle_all
  handle_all-lines [] out h = ap ok (sym (append-nil out))
  handle_all-lines (f ∷ fs) out h = rw (print_line-line f out h.0) (
      handle_all-lines fs (out ++ (line with_bytes f ∷ [])) h.1
      ∙ ap ok (append_assoc out (line with_bytes f ∷ []) (lines with_bytes fs)))

  module _ (p : Protocol) (binary : (w c : ℕ) → p.classify w ≡ bit c → IsBit c) where
    -- A read of whole words.
    pub listen-lines :
        (ws bits : List ℕ) (t : Terminal)
        → bytes ws < 2 ^ 32
        → All IsWord ws
        → t.decoder ≡ buf_of bits
        → Fits bits
        → All IsBit bits
        → let c = cut p.classify bits ws in
          listen alloc p with_bytes (some (bytes_of ws)) t
          ≡ ok (record t {
            printed = t.printed ++ lines with_bytes c.frames;
            buffer = into t.buffer (bytes_of ws);
            decoder = buf_of c.open_bits;
          })
    unfolding listen cut
    listen-lines [] bits t size words dec fits bs =
        ap₂ (λ l d. ok (record t { printed = l; buffer = t.buffer; decoder = d }))
          (sym (append-nil t.printed)) dec
    listen-lines (w ∷ rest) bits t size words dec fits bs =
        let ws = w ∷ rest in
        let c = cut p.classify bits ws in
        let behind = drop (length (bytes_of ws)) t.buffer in
        let more : ltb 0 (length (bytes_of ws)) ≡ true = ground (arith, length-bytes_of ws) in
        let here = words_in-bytes_of ws behind words in
        let n = length (words_in (into t.buffer (bytes_of ws))) in
        rw
          (
            more,
            dec,
            here,
            length-bytes_of ws,
            drain-after_cut p (print_line alloc with_bytes) (suc n) ws (words_in behind) bits
                t.printed (omega (arith, ap length here, length-append ws (words_in behind))) size
                fits,
            handle_all-lines c.frames t.printed (cut-IsFrame p.classify binary ws bits fits bs),
          )
          refl
