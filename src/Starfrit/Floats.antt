-- ===== src/Starfrit/Floats.antt =====
-- The floats of raspberrypi/irbrgd/starfrit.c, which the C compiler and library implement.
use irbridge.Base.{ℕ, ◌^◌, ◌<◌, Bool, false, List, ◌≡◌, ◌==◌}

-- `tenths n` is `(float)n/10`, and `print` is what `%f` gives. The laws are those of IEEE single
-- precision: for different `n` below 2 ^ 16 the quotients differ, and are not negative; and zero is
-- not below itself.
pub record Float : Type 1 where
  pub F : Type 0
  pub neg_one : F
  pub zero : F
  pub tenths : ℕ → F
  pub eq : F → F → Bool
  pub le : F → F → Bool
  pub lt : F → F → Bool
  pub atof : List ℕ → F
  pub print : F → List ℕ
  pub eq-tenths : (m n : ℕ) → m < 2 ^ 16 → n < 2 ^ 16 → eq (tenths m) (tenths n) ≡ (m == n)
  pub eq-neg_one : (n : ℕ) → n < 2 ^ 16 → eq neg_one (tenths n) ≡ false
  pub eq-zero : (n : ℕ) → n < 2 ^ 16 → eq (tenths n) zero ≡ (n == 0)
  pub lt-zero : lt zero zero ≡ false
