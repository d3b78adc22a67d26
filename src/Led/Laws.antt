-- ===== src/Led/Laws.antt =====
-- register_led (raspberrypi/irbrgd/led.c:36) on all its paths.
use irbridge.Base.{ℕ, ◌≡◌, refl, Bool, inl, inr, ◌⊎◌, Bool-cases, List, [], ◌∷◌, ◌++◌, codes, ◌==◌}
use irbridge.Led.{FileOp, put, export_path, pin_path, unregister_led, direct_led, register_led}

module _ (opens : List FileOp → List ℕ → Bool) (prints : List FileOp → List ℕ → Bool)
    (digits : ℕ → List ℕ) where
  -- `register_led` either exports the pin, then makes it an output, and returns 0; or writes
  -- nothing and returns 1; or exports the pin, leaves it to `unregister_led` to undo that, and
  -- returns 1, whatever `fopen` and `fprintf` return.
  pub register_led-cases :
      (gpio : ℕ) (ops : List FileOp)
      → let r = register_led opens prints digits gpio ops in
        let exported = ops ++ (put export_path (digits gpio) ∷ []) in
        ((r.ret ≡ 0)
          × (r.ops
              ≡ exported
                ++ (put (pin_path opens prints digits gpio (codes "/direction")) (codes "out")
                    ∷ [])))
        ⊎ (((r.ret ≡ 1) × (r.ops ≡ ops))
            ⊎ ((r.ret ≡ 1) × (r.ops ≡ unregister_led opens prints digits gpio exported)))
  unfolding register_led direct_led
  register_led-cases gpio ops =
      let exported = ops ++ (put export_path (digits gpio) ∷ []) in
      let path = pin_path opens prints digits gpio (codes "/direction") in
      elim (Bool-cases (gpio == 0)) [
        | inl e ↦ inr (inl (rw e (refl, refl)))
        | inr e ↦ elim (Bool-cases (opens ops export_path)) [
          | inr o ↦ inr (inl (rw (e, o) (refl, refl)))
          | inl o ↦ elim (Bool-cases (prints ops export_path)) [
            | inr p ↦ inr (inl (rw (e, o, p) (refl, refl)))
            | inl p ↦ elim (Bool-cases (opens exported path)) [
              | inr o' ↦ inr (inr (rw (e, o, p, o') (refl, refl)))
              | inl o' ↦ elim (Bool-cases (prints exported path)) [
                | inr p' ↦ inr (inr (rw (e, o, p, o', p') (refl, refl)))
                | inl p' ↦ inl (rw (e, o, p, o', p') (refl, refl))
              ]
            ]
          ]
        ]
      ]
