-- ===== src/Starfrit/Checksum.antt =====
-- The checksum and the weight of a frame (raspberrypi/irbrgd/starfrit.c:118), in plain arithmetic.
use irbridge.Base.{
  ℕ, ◌+◌, ◌-◌, ◌*◌, ◌%◌, ◌^◌, ◌≤◌, ◌<◌, true, ◌≡◌, refl, table_holds, checked_below, ==-eq, leb,
  ◌==◌, if◌then◌else◌, bit_and, bit_or, arith,
}
use irbridge.Starfrit.{Frame, check_sum, raw_weight}

-- All fields are bytes.
pub record IsBytes (f : Frame) : Type 0 where
  pub trail_lt : f.trail < 256
  pub head_lt : f.head < 256
  pub msb_lt : f.msb < 256
  pub lsb_lt : f.lsb < 256

abbrev pub sum : Frame → ℕ
sum f = f.trail + f.head + f.msb + f.lsb

raw_table : table_holds 256 (λ m. table_holds 256 (λ l. bit_or (m * 2 ^ 8) l == m * 256 + l)) ≡ true
unfolding table_holds
raw_table = refl

pub raw_weight-eq : (f : Frame) → IsBytes f → raw_weight f ≡ f.msb * 256 + f.lsb
unfolding raw_weight
raw_weight-eq f h =
    ==-eq _ _ (checked_below 256 _ f.lsb (checked_below 256 _ f.msb raw_table h.msb_lt) h.lsb_lt)

-- `(s & 0xFF) | 1`
abbrev odd_byte : ℕ → ℕ
odd_byte s = s % 256 + (1 - s % 2)

odd_table : table_holds 1021 (λ s. bit_or (bit_and s 0xff) 0x1 == odd_byte s) ≡ true
unfolding table_holds
odd_table = refl

odd_byte_lem : (s : ℕ) → s < 1021 → bit_or (bit_and s 0xff) 0x1 ≡ odd_byte s
odd_byte_lem s h = ==-eq _ _ (checked_below 1021 _ s odd_table h)

-- The checksum of a frame of bytes is the sum's low byte made odd, and two more where the sum is
-- larger than that by 256 or more.
pub check_sum-eq :
    (f : Frame)
    → IsBytes f
    → check_sum f
      ≡ sum f % 256
        + (1 - sum f % 2)
        + (if leb (sum f % 256 + (1 - sum f % 2) + 256) (sum f) then 2 else 0)
unfolding check_sum
check_sum-eq f h = rw (odd_byte_lem (sum f) (omega (arith, h.trail_lt))) (ground arith)

pub check_sum_odd : (f : Frame) → IsBytes f → check_sum f % 2 ≡ 1
check_sum_odd f h = rw (check_sum-eq f h) (ground arith)

-- The checksum of a frame of bytes is 257, which no byte equals, where the low byte of the sum is
-- 254 or 255 and the sum is 512 or more.
pub check_sum_overflow :
    (f : Frame) → IsBytes f → 254 ≤ sum f % 256 → 512 ≤ sum f → check_sum f ≡ 257
check_sum_overflow f h low high = rw (check_sum-eq f h) (ground arith)
