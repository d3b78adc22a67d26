-- ===== src/Utest/Unkn0.antt =====
-- `UTEST_unkn0` (ircodec/src/ir_unkn0.c:94).
use irbridge.Base.{
  ℕ, suc, ◌+◌, ◌*◌, Bool, ◌&&◌, List, [], ◌∷◌, Outcome, ok, ◌>>=◌, length, codes, ◌==◌,
}
use irbridge.Decoder.{DecodeBuf}
use irbridge.Decoder.Refine.{bytes}
use irbridge.Lirc.{lirc_size}
use irbridge.Unkn0.{unkn0_decode, unkn0_decode_reset, unkn0_encode, unkn0_t0, unkn0_t1}
use irbridge.Unkn0.Symbols.{unkn0}
use irbridge.Utest.{mark, is_null, at, returned, past, reads, calls}

abbrev one_frame : List ℕ
one_frame =
    mark 500
    ∷ 1000
    ∷ mark 500
    ∷ 1000
    ∷ mark 500
    ∷ 500
    ∷ mark 500
    ∷ 1000
    ∷ mark 500
    ∷ 1000
    ∷ mark 500
    ∷ 1000
    ∷ mark 500
    ∷ 500
    ∷ mark 500
    ∷ 500
    ∷ 77000
    ∷ []

-- The same frame in two reads.
abbrev front : List ℕ
front = mark 500 ∷ 1000 ∷ mark 500 ∷ 1000 ∷ mark 500 ∷ 500 ∷ mark 500 ∷ 1000 ∷ []

abbrev back : List ℕ
back = mark 500 ∷ 1000 ∷ mark 500 ∷ 1000 ∷ mark 500 ∷ 500 ∷ mark 500 ∷ 500 ∷ 77000 ∷ []

abbrev three_frames : List ℕ
three_frames =
    77000
    ∷ mark 500
    ∷ 1000
    ∷ mark 500
    ∷ 1000
    ∷ mark 500
    ∷ 500
    ∷ mark 500
    ∷ 1000
    ∷ 77000
    ∷ mark 500
    ∷ 1000
    ∷ mark 500
    ∷ 1000
    ∷ mark 500
    ∷ 500
    ∷ 77000
    ∷ mark 500
    ∷ 500
    ∷ 77000
    ∷ mark 500
    ∷ 500
    ∷ []

unfoldable pub utest_unkn0_decode : DecodeBuf → Outcome Bool
utest_unkn0_decode s = do
  s ← unkn0_decode_reset s
  a ← unkn0_decode [] 0 s
  s ← unkn0_decode_reset a.state
  b ← unkn0_decode (77000 ∷ []) 4 s
  s ← unkn0_decode_reset b.state
  c ← unkn0_decode one_frame (bytes one_frame) s
  s ← unkn0_decode_reset c.state
  d ← unkn0_decode front (bytes front) s
  e ← unkn0_decode back (bytes back) d.state
  s ← unkn0_decode_reset e.state
  frames ←
      calls unkn0 (suc (length three_frames))
        ((λ f. returned 0 f && past (length three_frames) 1 f)
          ∷ (λ f. returned 1 f && past (length three_frames) 10 f && reads "1101" f)
          ∷ (λ f. returned 1 f && past (length three_frames) 17 f && reads "110" f)
          ∷ (λ f. returned 1 f && past (length three_frames) 20 f && reads "0" f)
          ∷ (λ f. returned 0 f && past (length three_frames) 22 f)
          ∷ [])
        three_frames (bytes three_frames) s
  ok (
      returned 0 a
      && past 0 0 a
      && returned 0 b
      && past 1 1 b
      && returned 1 c
      && past 17 17 c
      && reads "11011100" c
      && returned 0 d
      && past 8 8 d
      && returned 1 e
      && past 9 9 e
      && reads "11011100" e
      && frames)

unfoldable pub utest_unkn0_encode : (ℕ → List ℕ) → Outcome Bool
utest_unkn0_encode alloc = do
  a ← unkn0_encode alloc []
  b ← unkn0_encode alloc (codes "1")
  c ← unkn0_encode alloc (codes "0")
  d ← unkn0_encode alloc (codes "110")
  ok (
      a.size == 0
      && is_null a.out
      && b.size == lirc_size * (2 * 1 + 1)
      && at b.out 0 unkn0_t0
      && at b.out 1 unkn0_t1
      && c.size == lirc_size * (2 * 1 + 1)
      && at c.out 0 unkn0_t0
      && at c.out 1 unkn0_t0
      && d.size == lirc_size * (2 * 3 + 1)
      && at d.out 0 unkn0_t0
      && at d.out 1 unkn0_t1
      && at d.out 2 unkn0_t0
      && at d.out 3 unkn0_t1
      && at d.out 4 unkn0_t0
      && at d.out 5 unkn0_t0)
