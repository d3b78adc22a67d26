-- ===== src/Console/Showing.antt =====
-- What the Linux client shows of the words that come from the server (clients/linux/main.c:152).
use irbridge.Base.{
  ℕ, zero, suc, ◌*◌, ◌^◌, ◌<◌, ◌≡◌, refl, sym, ap, ◌∙◌, false, inl, inr, Bool-cases, ==-eq, List,
  [], ◌∷◌, ◌++◌, map, append_assoc, append-nil, ok, All, Allocates, length, length-map,
  length-append, get_or, read, drop, ◌==◌, if◌then◌else◌, bit_or, arith,
}
use irbridge.Bitops.{nb_bytes}
use irbridge.Bitops.Packing.{pack, length-pack, string2bytes-pack}
use irbridge.Chars.{IsBit, Bits-IsText, c_string-buf_of}
use irbridge.Console.{Console, show_frame, from_server}
use irbridge.Daemon.{into}
use irbridge.Daemon.Words.{words_in, bytes_of, IsWord, length-bytes_of, words_in-bytes_of}
use irbridge.Decoder.Drain.Laws.{handle_all, drain-after_cut}
use irbridge.Decoder.Frames.{Fits, cut}
use irbridge.Decoder.Protocol.{buf_of}
use irbridge.Decoder.Refine.{bytes}
use irbridge.FrameBits.{IsFrame, cut-IsFrame}
use irbridge.Starfrit.{invert}
use irbridge.Starfrit.Stream.{unkn0-binary}
use irbridge.Unkn0.Symbols.{unkn0, unkn0_symbol}

-- The inverted bytes of a frame.
abbrev inverted : List ℕ → List ℕ
inverted bits = map invert (pack bits)

-- The weight of a frame of 39 bits that starts with 0xAB, in tenths of a kilogram; of any other
-- frame nothing is shown.
unfoldable pub weight_of : List ℕ → List ℕ
weight_of bits =
    let b = inverted bits in
    if length bits == 39
    then (if get_or b 0 0 == 0xab then bit_or (get_or b 2 0 * 2 ^ 8) (get_or b 3 0) ∷ [] else [])
    else []

abbrev pub weights : List (List ℕ) → List ℕ
weights [] = []
weights (f ∷ fs) = weight_of f ++ weights fs

read-get_or : (xs : List ℕ) (i : ℕ) → i < length xs → read xs i ≡ ok (get_or xs i 0)
read-get_or [] i h = absurd (omega arith)
read-get_or (x ∷ xs) zero h = refl
read-get_or (x ∷ xs) (suc i) h = read-get_or xs i (omega arith)

module _ (alloc : ℕ → List ℕ) (fresh : Allocates alloc) where
  show_frame-weight_of :
      (bits shown : List ℕ)
      → IsFrame bits
      → show_frame alloc (buf_of bits) shown ≡ ok (shown ++ weight_of bits)
  unfolding show_frame buf_of weight_of
  show_frame-weight_of [] shown h = absurd (omega (arith, h.some_bits))
  show_frame-weight_of (c ∷ cs) shown h =
      let bits = c ∷ cs in
      let text = c_string-buf_of bits h.fits (Bits-IsText bits h.chars) in
      let packed = string2bytes-pack alloc c cs fresh in
      elim (Bool-cases (length bits == 39)) [
        | inr other ↦ rw (text, packed, other) (ap ok (sym (append-nil shown)))
        | inl weight ↦
            let five : length (inverted bits) ≡ 5 =
              length-map invert (pack bits) ∙ length-pack bits ∙ ap nb_bytes (==-eq _ _ weight) in
            let at0 = read-get_or (inverted bits) 0 (omega arith) in
            let at2 = read-get_or (inverted bits) 2 (omega arith) in
            let at3 = read-get_or (inverted bits) 3 (omega arith) in
            elim (Bool-cases (get_or (inverted bits) 0 0 == 0xab)) [
              | inl scale ↦ rw (text, packed, weight, at0, scale, at2, at3) refl
              | inr other ↦ rw (text, packed, weight, at0, other) (ap ok (sym (append-nil shown)))
            ]
      ]

  handle_all-weights :
      (fs : List (List ℕ)) (shown : List ℕ)
      → All IsFrame fs
      → handle_all (show_frame alloc) fs shown ≡ ok (shown ++ weights fs)
  unfolding handle_all
  handle_all-weights [] shown h = ap ok (sym (append-nil shown))
  handle_all-weights (f ∷ fs) shown h = rw (show_frame-weight_of f shown h.0) (
      handle_all-weights fs (shown ++ weight_of f) h.1
      ∙ ap ok (append_assoc shown (weight_of f) (weights fs)))

  -- A read of some whole words.
  pub from_server-weights :
      (ws buffer bits : List ℕ) (σ : Console)
      → bytes ws < 2 ^ 32
      → All IsWord ws
      → 0 < length ws
      → σ.decoder ≡ buf_of bits
      → Fits bits
      → All IsBit bits
      → let c = cut unkn0_symbol bits ws in
        from_server alloc (into buffer (bytes_of ws)) (length (bytes_of ws)) σ
        ≡ ok (false, record σ { shown = σ.shown ++ weights c.frames; decoder = buf_of c.open_bits })
  unfolding from_server
  from_server-weights ws buffer bits σ size small some_words dec fits bs =
      let c = cut unkn0_symbol bits ws in
      let behind = words_in (drop (bytes ws) buffer) in
      let more : (length (bytes_of ws) == 0) ≡ false = ground (arith, length-bytes_of ws) in
      rw
        (
          more,
          dec,
          words_in-bytes_of ws (drop (length (bytes_of ws)) buffer) small,
          length-bytes_of ws,
          drain-after_cut unkn0 (show_frame alloc) (suc (length (ws ++ behind))) ws behind bits
              σ.shown (omega (arith, length-append ws behind)) size fits,
          handle_all-weights c.frames σ.shown
              (cut-IsFrame unkn0_symbol unkn0-binary ws bits fits bs),
        )
        refl
