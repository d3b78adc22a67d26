-- ===== src/Starfrit.antt =====
-- raspberrypi/irbrgd/starfrit.c: the bathroom scale. A float is a value of an interface that the C
-- library implements; `time` and the printing of a float are parameters of the section.
pub mod Floats
pub mod Stream
pub mod Checksum
pub mod Push
pub mod Run
pub mod Weigh
pub mod Steady
pub mod Unaligned
pub mod Setup
use irbridge.Base.{
  ℕ, suc, ◌+◌, ◌-◌, ◌*◌, ◌%◌, ◌^◌, Bool, true, false, not, ◌&&◌, ◌||◌, List, [], ◌∷◌, ◌++◌, Outcome,
  ok, fault, ◌>>=◌, length, c_string, codes, read, ltb, leb, ◌==◌, if◌then◌else◌, bit_and, bit_or,
}
use irbridge.Bitops.{string2bytes}
use irbridge.Decoder.{DecodeBuf}
use irbridge.Decoder.Drain.{drain}
use irbridge.Loopback.{words_of}
use irbridge.Unkn0.Symbols.{unkn0}
use Floats.{Float}

abbrev pub samevalue_cnt : ℕ
samevalue_cnt = 10

abbrev pub path_size : ℕ
path_size = 255

-- The five inverted bytes of a frame.
pub record Frame : Type 0 where
  pub trail : ℕ
  pub head : ℕ
  pub msb : ℕ
  pub lsb : ℕ
  pub check : ℕ

-- `(~x) & 0xFF` on an `int`.
abbrev pub invert : ℕ → ℕ
invert x = (2 ^ 32 - 1 - x) % 2 ^ 8

unfoldable pub frame_of : List ℕ → Outcome Frame
frame_of decoded = do
  d0 ← read decoded 0
  d1 ← read decoded 1
  d2 ← read decoded 2
  d3 ← read decoded 3
  d4 ← read decoded 4
  ok (record {
    trail = invert d0;
    head = invert d1;
    msb = invert d2;
    lsb = invert d3;
    check = invert d4;
  })

-- `sumFF`. `remain >= 256` is read as `sumFF + 256 <= sum`, since `remain` may be negative.
unfoldable pub check_sum : Frame → ℕ
check_sum f =
    let sum = f.trail + f.head + f.msb + f.lsb in
    let sum_ff = bit_or (bit_and sum 0xff) 0x1 in
    if leb (sum_ff + 256) sum then sum_ff + 2 else sum_ff

-- `(msb<<8) | lsb`, in tenths of a kilogram.
unfoldable pub raw_weight : Frame → ℕ
raw_weight f = bit_or (f.msb * 2 ^ 8) f.lsb

module _ (fl : Float) where
  open fl use {F}

  -- An entry of `starfritconf`.
  pub record Client : Type 0 where
    pub min : F
    pub max : F
    pub url : List ℕ

  -- The globals, with the number of calls of `time` made and the effects on the world so far: a
  -- blink of the led, or a command that `system` runs.
  pub data Effect : Type 0 where
    blink : Effect
    run : List ℕ → Effect

  pub record Scale : Type 0 where
    pub last_measurement : F
    pub samevalue_count : ℕ
    pub last_measurement_date : ℕ
    pub clients : List Client
    pub times : ℕ
    pub effects : List Effect

  unfoldable pub reset_measurements : Scale → Scale
  reset_measurements σ = record σ { last_measurement = fl.neg_one; samevalue_count = 0 }

  -- Whether a client is told of a weight.
  unfoldable pub wants : F → Client → Bool
  wants weight c =
      (fl.le c.min fl.zero || fl.le c.min weight) && (fl.le c.max fl.zero || fl.lt weight c.max)

  -- `sprintf(path, "curl -d \"\" -X POST \"%s%f\"", url, weight)`
  unfoldable pub command : List ℕ → F → List ℕ
  command url weight = codes "curl -d \"\" -X POST \"" ++ (url ++ (fl.print weight ++ codes "\""))

  -- The loop over the clients; a command that does not fit `path` with its zero is a fault.
  unfoldable pub push_all : F → List Client → List Effect → Outcome (List Effect)
  push_all weight [] done = ok done
  push_all weight (c ∷ cs) done =
      let cmd = command c.url weight in
      (if wants weight c
        then (if ltb (length cmd) path_size then ok (done ++ (run cmd ∷ [])) else fault)
        else ok done)
      >>= push_all weight cs

  unfoldable pub push_measurement : F → Scale → Outcome Scale
  push_measurement weight σ = push_all weight σ.clients (σ.effects ++ (blink ∷ [])) >>= λ effects.
      ok (record σ { effects = effects })

  -- What follows an accepted checksum, at the time `t`.
  unfoldable pub measured : F → ℕ → Scale → Outcome Scale
  measured weight t σ =
      let σ' = if ltb (σ.last_measurement_date + 15) t then reset_measurements σ else σ in
      let dated = record σ' { last_measurement_date = t } in
      let counted = record dated { samevalue_count = dated.samevalue_count + 1 } in
      if fl.eq dated.last_measurement weight
      then if counted.samevalue_count == samevalue_cnt && not (fl.eq weight fl.zero)
        then push_measurement weight counted
        else ok counted
      else ok (record (reset_measurements dated) { last_measurement = weight })

  module _ (alloc : ℕ → List ℕ) (time : ℕ → ℕ) where
    -- The tests on the decoded bytes and the checksum.
    unfoldable pub decoded_bytes : List ℕ → ℕ → Scale → Outcome Scale
    decoded_bytes decoded n σ =
        if n == 5
        then (read decoded 0 >>= λ d0.
            (if d0 == 0x54
              then (frame_of decoded >>= λ f.
                  (if check_sum f == f.check
                    then measured (fl.tenths (raw_weight f)) (time σ.times)
                        (record σ { times = σ.times + 1 })
                    else ok σ))
              else ok σ))
        else ok σ

    -- The body of the loop where `DECODE` has found a frame, up to `RESET`.
    unfoldable pub on_frame : DecodeBuf → Scale → Outcome Scale
    on_frame s σ = do
      text ← c_string s.buff
      r ← string2bytes alloc text
      decoded_bytes (words_of r.out) r.count σ

    -- `words` are the words that can be read from `buffer`.
    unfoldable pub starfrit_process : List ℕ → ℕ → Scale → DecodeBuf → Outcome (Scale × DecodeBuf)
    starfrit_process words len σ s = drain unkn0 on_frame (suc (length words)) words len s σ
