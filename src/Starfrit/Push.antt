-- ===== src/Starfrit/Push.antt =====
-- push_measurement (raspberrypi/irbrgd/starfrit.c:167): which clients are told, and the buffer for
-- the command.
use irbridge.Base.{
  ℕ, ◌+◌, ◌≤◌, ◌<◌, Bool-cases, true, false, inl, inr, List, [], ◌∷◌, ◌++◌, append_assoc,
  append-nil, ok, fault, ◌>>=◌, >>=-assoc, >>=-cong, ◌≡◌, refl, sym, ◌∙◌, ap, length, length-append,
  All, ltb, if◌then◌else◌, codes, arith,
}
use irbridge.Starfrit.Floats.{Float}
use irbridge.Starfrit.{
  Client, Effect, blink, run, Scale, wants, path_size, command, push_all, push_measurement,
}

module _ (fl : Float) where
  open fl use {F}

  -- The commands for the clients that want a weight, in the order of the configuration.
  abbrev pub told : F → List (Client fl) → List (Effect fl)
  told weight [] = []
  told weight (c ∷ cs) =
      let rest = told weight cs in
      if wants fl weight c then run (command fl c.url weight) ∷ rest else rest

  -- Each command has room in `path`.
  abbrev pub Commands : F → List (Client fl) → Type 0
  Commands weight = All (λ c. length (command fl c.url weight) < path_size)

  push_all-told :
      (weight : F) (cs : List (Client fl)) (done : List (Effect fl))
      → Commands weight cs
      → push_all fl weight cs done ≡ ok (done ++ told weight cs)
  unfolding push_all
  push_all-told weight [] done h = ap ok (sym (append-nil done))
  push_all-told weight (c ∷ cs) done h = elim (Bool-cases (wants fl weight c)) [
    | inl yes' ↦
        let room : ltb (length (command fl c.url weight)) path_size ≡ true = ground (arith, h.0) in
        rw (yes', room)
          (push_all-told weight cs (done ++ (run (command fl c.url weight) ∷ [])) h.1
            ∙ rw append_assoc refl)
    | inr no' ↦ rw no' (push_all-told weight cs done h.1)
  ]

  -- If each client's command fits `path`, `push_measurement` blinks the led, tells each client that
  -- wants the weight, in the order of the configuration, and changes nothing else.
  pub push_measurement-told :
      (weight : F) (σ : Scale fl)
      → Commands weight σ.clients
      → push_measurement fl weight σ
        ≡ ok (record σ { effects = σ.effects ++ (blink ∷ told weight σ.clients) })
  unfolding push_measurement
  push_measurement-told weight σ h =
      rw (push_all-told weight σ.clients (σ.effects ++ (blink ∷ [])) h) (rw append_assoc refl)

  push_all-append :
      (weight : F) (before after : List (Client fl)) (done : List (Effect fl))
      → push_all fl weight (before ++ after) done
        ≡ (push_all fl weight before done >>= push_all fl weight after)
  unfolding push_all
  push_all-append weight [] after done = refl
  push_all-append weight (c ∷ cs) after done =
      >>=-cong _ _ _ (push_all-append weight cs after)
      ∙ sym (>>=-assoc _ (push_all fl weight cs) (push_all fl weight after))

  length-command :
      (url : List ℕ) (weight : F)
      → length (command fl url weight) ≡ length url + length (fl.print weight) + 21
  unfolding command
  length-command url weight = omega (
    arith,
    length-append url (fl.print weight ++ codes "\""),
    length-append (fl.print weight) (codes "\""),
  )

  push_all_overflow :
      (weight : F) (c : Client fl) (cs : List (Client fl)) (done : List (Effect fl))
      → wants fl weight c ≡ true
      → path_size ≤ length c.url + length (fl.print weight) + 21
      → push_all fl weight (c ∷ cs) done ≡ fault
  unfolding push_all
  push_all_overflow weight c cs done w long =
      let full : ltb (length (command fl c.url weight)) path_size ≡ false =
        ground (arith, length-command c.url weight) in
      rw (w, full)

  -- A client that wants the weight and whose address has, with the printed weight, 234 characters
  -- or more makes `push_measurement` write behind `path`, if the commands of the clients before it
  -- fit.
  pub push_measurement_overflow :
      (weight : F) (c : Client fl) (σ : Scale fl) (before after : List (Client fl))
      → σ.clients ≡ before ++ (c ∷ after)
      → Commands weight before
      → wants fl weight c ≡ true
      → path_size ≤ length c.url + length (fl.print weight) + 21
      → push_measurement fl weight σ ≡ fault
  unfolding push_measurement
  push_measurement_overflow weight c σ before after e h w long =
      rw (e, push_all-append weight before (c ∷ after) (σ.effects ++ (blink ∷ [])))
        (rw (push_all-told weight before (σ.effects ++ (blink ∷ [])) h) (
          rw
            (push_all_overflow weight c after ((σ.effects ++ (blink ∷ [])) ++ told weight before) w
              long)
            refl))
