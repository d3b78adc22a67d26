-- ===== src/Starfrit/Steady.antt =====
-- What the scale does with frames never goes wrong, as long as the commands fit their buffer
-- (raspberrypi/irbrgd/starfrit.c:113).
use mathlib.Core.Path.{subst}
use irbridge.Base.{
  ℕ, ◌+◌, ◌≡◌, refl, sym, Bool, true, false, not, ◌&&◌, List, [], ◌∷◌, ◌++◌, Outcome, ok, ◌>>=◌,
  length, ltb, ◌==◌, if◌then◌else◌, ==-eq, Bool-cases, inl, inr, arith,
}
use irbridge.Bitops.{nb_bytes}
use irbridge.Bitops.Packing.{pack, length-pack}
use irbridge.Starfrit.Floats.{Float}
use irbridge.Starfrit.Push.{Commands, told, push_measurement-told}
use irbridge.Starfrit.Stream.{weigh_all}
use irbridge.Starfrit.{
  frame_of, Client, blink, Scale, reset_measurements, push_measurement, samevalue_cnt, measured,
  decoded_bytes,
}

-- The command for every weight and every client has room in `path`.
abbrev pub Fitting : (fl : Float) → List (Client fl) → Type 0
Fitting fl clients = (weight : fl.F) → Commands fl weight clients

module _ (fl : Float) (clients : List (Client fl)) (fitting : Fitting fl clients) where
  open fl use {F}

  -- That code ends, without a fault, and leaves the clients as they are.
  abbrev pub Steady : Outcome (Scale fl) → Type 0
  Steady m = (after : Scale fl) × (m ≡ ok after) × (after.clients ≡ clients)

  if-Steady :
      (b : Bool) (m n : Outcome (Scale fl)) → Steady m → Steady n → Steady (if b then m else n)
  if-Steady true m n h k = h
  if-Steady false m n h k = k

  >>=-Steady :
      (m : Outcome (Scale fl)) (f : Scale fl → Outcome (Scale fl))
      → Steady m
      → ((σ : Scale fl) → σ.clients ≡ clients → Steady (f σ))
      → Steady (m >>= f)
  >>=-Steady m f (σ, e, c) k = subst (λ x. Steady (x >>= f)) (sym e) (k σ c)

  push_measurement-Steady :
      (weight : F) (σ : Scale fl) → σ.clients ≡ clients → Steady (push_measurement fl weight σ)
  push_measurement-Steady weight σ c = (
    record σ { effects = σ.effects ++ (blink ∷ told fl weight σ.clients) },
    push_measurement-told fl weight σ (subst (Commands fl weight) (sym c) (fitting weight)),
    c,
  )

  clients-reset :
      (b : Bool) (σ : Scale fl)
      → σ.clients ≡ clients
      → (if b then reset_measurements fl σ else σ).clients ≡ clients
  unfolding reset_measurements
  clients-reset true σ c = c
  clients-reset false σ c = c

  measured-Steady :
      (weight : F) (t : ℕ) (σ : Scale fl) → σ.clients ≡ clients → Steady (measured fl weight t σ)
  unfolding measured reset_measurements
  measured-Steady weight t σ c =
      let late = ltb (σ.last_measurement_date + 15) t in
      let σ' : Scale fl = if late then reset_measurements fl σ else σ in
      let c' : σ'.clients ≡ clients = clients-reset late σ c in
      let counted : Scale fl = record σ' {
        last_measurement_date = t;
        samevalue_count = σ'.samevalue_count + 1;
      } in
      if-Steady (fl.eq σ'.last_measurement weight) _ _
        (if-Steady (counted.samevalue_count == samevalue_cnt && not (fl.eq weight fl.zero)) _ _
          (push_measurement-Steady weight counted c') (counted, refl, c'))
        (_, refl, c')

  module _ (alloc : ℕ → List ℕ) (time : ℕ → ℕ) where
    -- A frame of five bytes.
    five_bytes-Steady :
        (a b c d e : ℕ) (σ : Scale fl)
        → σ.clients ≡ clients
        → Steady (decoded_bytes fl alloc time (a ∷ b ∷ c ∷ d ∷ e ∷ []) 5 σ)
    unfolding decoded_bytes frame_of
    five_bytes-Steady a b c d e σ same =
        if-Steady (a == 0x54) _ _
          (if-Steady _ _ _
            (measured-Steady _ (time σ.times) (record σ { times = σ.times + 1 }) same)
            (σ, refl, same))
          (σ, refl, same)

    pub decoded_bytes-Steady :
        (decoded : List ℕ) (n : ℕ) (σ : Scale fl)
        → length decoded ≡ n
        → σ.clients ≡ clients
        → Steady (decoded_bytes fl alloc time decoded n σ)
    decoded_bytes-Steady decoded n σ len same = elim (Bool-cases (n == 5)) [
      | inl five ↦
          let five' = ==-eq n 5 five in
          subst (λ k. Steady (decoded_bytes fl alloc time decoded k σ)) (sym five')
            (go decoded (omega arith))
      | inr other ↦ (σ, skip other, same)
    ]
      where
        go : (l : List ℕ) → length l ≡ 5 → Steady (decoded_bytes fl alloc time l 5 σ)
        go (a ∷ b ∷ c ∷ d ∷ e ∷ []) h = five_bytes-Steady a b c d e σ same
        go [] h = absurd (omega arith)
        go (a ∷ []) h = absurd (omega arith)
        go (a ∷ b ∷ []) h = absurd (omega arith)
        go (a ∷ b ∷ c ∷ []) h = absurd (omega arith)
        go (a ∷ b ∷ c ∷ d ∷ []) h = absurd (omega arith)
        go (a ∷ b ∷ c ∷ d ∷ e ∷ f ∷ l) h = absurd (omega arith)

        skip : (n == 5) ≡ false → decoded_bytes fl alloc time decoded n σ ≡ ok σ
        skip other = unfold decoded_bytes in rw other refl

    pub weigh_all-Steady :
        (fs : List (List ℕ)) (σ : Scale fl)
        → σ.clients ≡ clients
        → Steady (weigh_all fl alloc time fs σ)
    weigh_all-Steady [] σ same = (σ, refl, same)
    weigh_all-Steady (f ∷ fs) σ same =
        >>=-Steady (decoded_bytes fl alloc time (pack f) (nb_bytes (length f)) σ)
          (weigh_all fl alloc time fs)
          (decoded_bytes-Steady (pack f) (nb_bytes (length f)) σ (length-pack f) same)
          (weigh_all-Steady fs)
