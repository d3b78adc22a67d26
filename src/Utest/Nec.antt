-- ===== src/Utest/Nec.antt =====
-- `UTEST_nec` (ircodec/src/ir_nec.c:96).
use irbridge.Base.{
  ℕ, suc, ◌+◌, ◌*◌, Bool, ◌&&◌, List, [], ◌∷◌, ◌++◌, Outcome, ok, ◌>>=◌, length, codes, ◌==◌,
}
use irbridge.Decoder.{DecodeBuf}
use irbridge.Decoder.Refine.{bytes}
use irbridge.Lirc.{lirc_size}
use irbridge.Nec.{
  nec_decode, nec_decode_reset, nec_encode, nec_t0, nec_t1, nec_thead_pulse, nec_thead_space,
}
use irbridge.Nec.Symbols.{nec}
use irbridge.Utest.{mark, is_null, at, returned, past, reads, calls}

-- A key that is sent, as it was recorded.
abbrev recorded_key : List ℕ
recorded_key =
    mark 8825
    ∷ 4407
    ∷ mark 576
    ∷ 514
    ∷ mark 583
    ∷ 1624
    ∷ mark 568
    ∷ 531
    ∷ mark 525
    ∷ 1680
    ∷ mark 569
    ∷ 1634
    ∷ mark 598
    ∷ 1603
    ∷ mark 593
    ∷ 510
    ∷ mark 558
    ∷ 1646
    ∷ mark 587
    ∷ 511
    ∷ mark 562
    ∷ 539
    ∷ mark 522
    ∷ 579
    ∷ mark 519
    ∷ 591
    ∷ mark 564
    ∷ 525
    ∷ mark 527
    ∷ 1682
    ∷ mark 584
    ∷ 514
    ∷ mark 568
    ∷ 1639
    ∷ mark 592
    ∷ 1612
    ∷ mark 571
    ∷ 1632
    ∷ mark 583
    ∷ 514
    ∷ mark 570
    ∷ 533
    ∷ mark 571
    ∷ 553
    ∷ mark 496
    ∷ 585
    ∷ mark 521
    ∷ 579
    ∷ mark 563
    ∷ 553
    ∷ mark 549
    ∷ 536
    ∷ mark 587
    ∷ 513
    ∷ mark 521
    ∷ 1686
    ∷ mark 567
    ∷ 1637
    ∷ mark 586
    ∷ 1617
    ∷ mark 582
    ∷ 1621
    ∷ mark 657
    ∷ 1545
    ∷ mark 600
    ∷ 1604
    ∷ mark 600
    ∷ 2672565
    ∷ []

abbrev recorded : List ℕ
recorded = 2672565 ∷ (recorded_key ++ (recorded_key ++ (mark 8825 ∷ [])))

abbrev two_bits : List ℕ
two_bits = mark 576 ∷ 514 ∷ mark 583 ∷ 1624 ∷ 2672565 ∷ []

-- A frame in two reads.
abbrev front : List ℕ
front = mark 576 ∷ 514 ∷ mark 583 ∷ 1624 ∷ mark 568 ∷ 531 ∷ mark 525 ∷ 1680 ∷ []

abbrev back : List ℕ
back = mark 569 ∷ 1634 ∷ mark 598 ∷ 1603 ∷ mark 593 ∷ 510 ∷ 77000 ∷ []

unfoldable pub utest_nec_decode : DecodeBuf → Outcome Bool
utest_nec_decode s = do
  s ← nec_decode_reset s
  a ← nec_decode [] 0 s
  s ← nec_decode_reset a.state
  b ← nec_decode (2672565 ∷ []) 4 s
  s ← nec_decode_reset b.state
  c ← nec_decode two_bits (bytes two_bits) s
  s ← nec_decode_reset c.state
  d ← nec_decode front (bytes front) s
  e ← nec_decode back (bytes back) d.state
  s ← nec_decode_reset e.state
  key ←
      calls nec (suc (length recorded))
        ((λ f. returned 0 f && past (length recorded) 1 f)
          ∷ (λ f. returned 0 f && past (length recorded) 2 f)
          ∷ (λ f. returned 0 f && past (length recorded) 3 f)
          ∷ (λ f. returned 1 f && reads "01011101000001011100000000111111" f)
          ∷ returned 0
          ∷ returned 0
          ∷ (λ f. returned 1 f && reads "01011101000001011100000000111111" f)
          ∷ [])
        recorded (bytes recorded) s
  ok (
      returned 0 a
      && past 0 0 a
      && returned 0 b
      && past 1 1 b
      && returned 1 c
      && past 5 5 c
      && reads "01" c
      && returned 0 d
      && past 8 8 d
      && returned 1 e
      && past 7 7 e
      && reads "0101110" e
      && key)

unfoldable pub utest_nec_encode : (ℕ → List ℕ) → Outcome Bool
utest_nec_encode alloc = do
  a ← nec_encode alloc []
  b ← nec_encode alloc (codes "1")
  c ← nec_encode alloc (codes "0")
  d ← nec_encode alloc (codes "110")
  ok (
      a.size == 0
      && is_null a.out
      && b.size == lirc_size * (2 * 1 + 2 + 1)
      && at b.out 0 nec_thead_pulse
      && at b.out 1 nec_thead_space
      && at b.out 2 nec_t0
      && at b.out 3 nec_t1
      && at b.out 4 nec_t0
      && c.size == lirc_size * (2 * 1 + 2 + 1)
      && at c.out 0 nec_thead_pulse
      && at c.out 1 nec_thead_space
      && at c.out 2 nec_t0
      && at c.out 3 nec_t0
      && d.size == lirc_size * (2 * 3 + 2 + 1)
      && at d.out 0 nec_thead_pulse
      && at d.out 1 nec_thead_space
      && at d.out 2 nec_t0
      && at d.out 3 nec_t1
      && at d.out 4 nec_t0
      && at d.out 5 nec_t1
      && at d.out 6 nec_t0
      && at d.out 7 nec_t0)
