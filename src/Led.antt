-- ===== src/Led.antt =====
-- raspberrypi/irbrgd/led.c: a pin of the GPIO driver, driven by writes to its files. What `fopen`
-- and `fprintf` return is a parameter, which may depend on what has been written before; so is the
-- printing of a number. A path with a number of at most 11 characters fits its 255.
pub mod Laws
use irbridge.Base.{ℕ, Bool, true, false, not, List, [], ◌∷◌, ◌++◌, codes, ◌==◌, if◌then◌else◌}

-- A text written to a file, or a second of sleep.
pub data FileOp : Type 0 where
  put : List ℕ → List ℕ → FileOp
  pause : FileOp

abbrev pub export_path : List ℕ
export_path = codes "/sys/class/gpio/export"

abbrev pub unexport_path : List ℕ
unexport_path = codes "/sys/class/gpio/unexport"

-- A result, with what has been written.
pub record Registered : Type 0 where
  pub ret : ℕ
  pub ops : List FileOp

module _ (opens : List FileOp → List ℕ → Bool) (prints : List FileOp → List ℕ → Bool)
    (digits : ℕ → List ℕ) where
  -- `"/sys/class/gpio/gpio%d/..."`
  abbrev pub pin_path : ℕ → List ℕ → List ℕ
  pin_path gpio name = codes "/sys/class/gpio/gpio" ++ (digits gpio ++ name)

  unfoldable pub unregister_led : ℕ → List FileOp → List FileOp
  unregister_led gpio ops =
      if gpio == 0
      then ops
      else if not (opens ops unexport_path)
      then ops
      else if not (prints ops unexport_path)
      then ops
      else ops ++ (put unexport_path (digits gpio) ∷ [])

  -- The second half of `register_led`, where the pin has been exported.
  unfoldable pub direct_led : ℕ → List FileOp → Registered
  direct_led gpio ops =
      let path = pin_path gpio (codes "/direction") in
      if not (opens ops path)
      then record { ret = 1; ops = unregister_led gpio ops }
      else if not (prints ops path)
      then record { ret = 1; ops = unregister_led gpio ops }
      else record { ret = 0; ops = ops ++ (put path (codes "out") ∷ []) }

  unfoldable pub register_led : ℕ → List FileOp → Registered
  register_led gpio ops =
      if gpio == 0
      then record { ret = 1; ops = ops }
      else if not (opens ops export_path)
      then record { ret = 1; ops = ops }
      else if not (prints ops export_path)
      then record { ret = 1; ops = ops }
      else direct_led gpio (ops ++ (put export_path (digits gpio) ∷ []))

  unfoldable pub set_led : ℕ → ℕ → List FileOp → List FileOp
  set_led gpio v ops =
      let path = pin_path gpio (codes "/value") in
      if gpio == 0
      then ops
      else if not (opens ops path)
      then ops
      else if not (prints ops path)
      then ops
      else ops ++ (put path (digits v) ∷ [])

  unfoldable pub blink_led : ℕ → List FileOp → List FileOp
  blink_led gpio ops = set_led gpio 0 (set_led gpio 1 ops ++ (pause ∷ [])) ++ (pause ∷ [])
