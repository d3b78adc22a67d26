-- ===== src/Starfrit/Run.antt =====
-- A run of equal readings (raspberrypi/irbrgd/starfrit.c:132).
use irbridge.Base.{
  ℕ, ◌+◌, ◌^◌, ◌≤◌, ◌<◌, Bool, false, not, ◌&&◌, List, [], ◌∷◌, ◌++◌, Outcome, ok, ◌>>=◌, ◌≡◌, refl,
  ◌∙◌, length, ltb, leb, ◌==◌, if◌then◌else◌, arith,
}
use irbridge.Starfrit.Floats.{Float}
use irbridge.Starfrit.Push.{Commands, told, push_measurement-told}
use irbridge.Starfrit.{blink, Scale, reset_measurements, samevalue_cnt, measured}

-- Times of which each is at most 15 seconds after the one before.
abbrev pub Close : ℕ → List ℕ → Type 0
Close last [] = Unit
Close last (t ∷ ts) = (t ≤ last + 15) × Close t ts

abbrev pub last_of : ℕ → List ℕ → ℕ
last_of d [] = d
last_of d (t ∷ ts) = last_of t ts

module _ (fl : Float) where
  open fl use {F}

  -- The same weight, read at each of some times.
  abbrev pub measured_at : F → List ℕ → Scale fl → Outcome (Scale fl)
  measured_at weight [] σ = ok σ
  measured_at weight (t ∷ ts) σ = measured fl weight t σ >>= measured_at weight ts

  module _ (n : ℕ) (small : n < 2 ^ 16) where
    weight : F
    weight = fl.tenths n

    -- Whether the count passes the mark on its way from `from` to `to`, for a weight that is not 0.
    abbrev pushes : ℕ → ℕ → Bool
    pushes from to = ltb from samevalue_cnt && (leb samevalue_cnt to && not (n == 0))

    measured_again :
        (t : ℕ) (σ : Scale fl)
        → σ.last_measurement ≡ weight
        → t ≤ σ.last_measurement_date + 15
        → Commands fl weight σ.clients
        → measured fl weight t σ
          ≡ ok (record σ {
            last_measurement = weight;
            samevalue_count = σ.samevalue_count + 1;
            last_measurement_date = t;
            effects =
                if pushes σ.samevalue_count (σ.samevalue_count + 1)
                then σ.effects ++ (blink ∷ told fl weight σ.clients)
                else σ.effects;
          })
    unfolding measured weight
    measured_again t σ same close h = ground (
      arith,
      fl.eq-tenths n n small small,
      fl.eq-zero n small,
      push_measurement-told fl (fl.tenths n)
          (record σ { last_measurement_date = t; samevalue_count = σ.samevalue_count + 1 }) h,
    )

    measured_on :
        (ts : List ℕ) (σ : Scale fl)
        → σ.last_measurement ≡ weight
        → Close σ.last_measurement_date ts
        → Commands fl weight σ.clients
        → measured_at weight ts σ
          ≡ ok (record σ {
            last_measurement = weight;
            samevalue_count = σ.samevalue_count + length ts;
            last_measurement_date = last_of σ.last_measurement_date ts;
            effects =
                if pushes σ.samevalue_count (σ.samevalue_count + length ts)
                then σ.effects ++ (blink ∷ told fl weight σ.clients)
                else σ.effects;
          })
    measured_on [] σ same close h = ground arith
    measured_on (t ∷ ts) σ same close h = rw (measured_again t σ same close.0 h) (
        measured_on ts
          (record σ {
            last_measurement = weight;
            samevalue_count = σ.samevalue_count + 1;
            last_measurement_date = t;
            effects =
                if pushes σ.samevalue_count (σ.samevalue_count + 1)
                then σ.effects ++ (blink ∷ told fl weight σ.clients)
                else σ.effects;
          })
          refl close.1 h
        ∙ ground arith)

    measured_first :
        (t : ℕ) (σ : Scale fl)
        → fl.eq σ.last_measurement weight ≡ false
        → measured fl weight t σ
          ≡ ok (record σ {
            last_measurement = weight;
            samevalue_count = 0;
            last_measurement_date = t;
          })
    unfolding measured reset_measurements weight
    measured_first t σ other = ground (arith, fl.eq-neg_one n small)

-- A weight of `n` tenths of a kilogram, `n` below 2 ^ 16, that is read at a time `t` when the last
-- reading was another, and then again at the times `ts`, each at most 15 seconds after the one
-- before, is pushed once if it is not 0 and is read again ten times or oftener, and not at all
-- otherwise; a push blinks the led and tells the clients that want the weight. It is assumed that
-- the commands of all clients fit `path`.
pub measured_run :
    (fl : Float) (n t : ℕ) (ts : List ℕ) (σ : Scale fl)
    → n < 2 ^ 16
    → fl.eq σ.last_measurement (fl.tenths n) ≡ false
    → Close t ts
    → Commands fl (fl.tenths n) σ.clients
    → measured_at fl (fl.tenths n) (t ∷ ts) σ
      ≡ ok (record σ {
        last_measurement = fl.tenths n;
        samevalue_count = length ts;
        last_measurement_date = last_of t ts;
        effects =
            if leb 10 (length ts) && not (n == 0)
            then σ.effects ++ (blink ∷ told fl (fl.tenths n) σ.clients)
            else σ.effects;
      })
unfolding weight
measured_run fl n t ts σ small other close h = rw (measured_first fl n small t σ other) (
    measured_on fl n small ts
      (record σ { last_measurement = fl.tenths n; samevalue_count = 0; last_measurement_date = t })
      refl close h
    ∙ ground arith)
