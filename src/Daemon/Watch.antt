-- ===== src/Daemon/Watch.antt =====
-- The descriptors that a round of the main loop waits for (raspberrypi/irbrgd/main.c:334).
use irbridge.Base.{
  ℕ, suc, ◌+◌, ◌<◌, ◌≡◌, refl, ap, ◌∙◌, inl, inr, Bool, true, false, Bool-cases, ==-eq, some, List,
  [], ◌∷◌, ◌++◌, ok, length, length-append, read, read-append, snoc-append, ltb, leb, ◌==◌,
  if◌then◌else◌, arith,
}
use irbridge.Server.{Server, client}
use irbridge.Server.Contract.{Holds}
use irbridge.Daemon.{Watched, nothing, watch, is_in, watch_clients, watch_all}

-- What the loop does, as a function on the list of clients.
abbrev pub watch_each : List ℕ → Watched → Watched
watch_each [] w = w
watch_each (c ∷ cs) w = watch_each cs (if ltb 0 c then watch c w else w)

-- A client of the table, by its index.
pub client-append :
    (pre rest spare : List ℕ) (c idx : ℕ) (σ : Server)
    → σ.slots ≡ pre ++ ((c ∷ rest) ++ spare)
    → idx ≡ length pre
    → σ.count ≡ idx + length (c ∷ rest)
    → client idx σ ≡ ok (some c)
unfolding client
client-append pre rest spare c idx σ e i k =
    let inside : leb σ.count idx ≡ false = ground arith in
    let now : read σ.slots idx ≡ ok c =
      ap (λ l. read l idx) e ∙ read-append pre (rest ++ spare) c idx i in
    rw (inside, now) refl

pub watch_clients-each :
    (pre cs spare : List ℕ) (idx : ℕ) (σ : Server) (w : Watched)
    → σ.slots ≡ pre ++ (cs ++ spare)
    → idx ≡ length pre
    → σ.count ≡ idx + length cs
    → watch_clients (length cs) idx σ w ≡ ok (watch_each cs w)
unfolding watch_clients
watch_clients-each pre [] spare idx σ w e i k = refl
watch_clients-each pre (c ∷ cs) spare idx σ w e i k =
    rw (client-append pre cs spare c idx σ e i k) (
      watch_clients-each (pre ++ (c ∷ [])) cs spare (suc idx) σ (if ltb 0 c then watch c w else w)
        (e ∙ snoc-append pre (cs ++ spare) c) (omega (arith, length-append pre (c ∷ [])))
        (omega arith))

-- A property of both outcomes of a test, or of the one that it has.
either : (P : Watched → Type 0) (b : Bool) (v w : Watched) → P v → P w → P (if b then v else w)
either P true v w hv hw = hv
either P false v w hv hw = hw

either_true :
    (P : Watched → Type 0) (b : Bool) (v w : Watched) → b ≡ true → P v → P (if b then v else w)
either_true P true v w e hv = hv
either_true P false v w e hv = cc e

-- The set's bound covers its members.
abbrev pub Covers : Watched → Type 0
Covers w = (x : ℕ) → is_in x w.fds ≡ true → x < w.max_fd + 1

watch-Covers : (fd : ℕ) (w : Watched) → Covers w → Covers (watch fd w)
watch-Covers fd w h x m = elim (Bool-cases (x == fd)) [
  | inl e ↦ let same = ==-eq x fd e in ground arith
  | inr e ↦ let before : is_in x w.fds ≡ true = ground arith in ground (arith, h x before)
]

watch_each-Covers : (cs : List ℕ) (w : Watched) → Covers w → Covers (watch_each cs w)
watch_each-Covers [] w h = h
watch_each-Covers (c ∷ cs) w h =
    watch_each-Covers cs _ (either Covers (ltb 0 c) (watch c w) w (watch-Covers c w h) h)

-- What is kept as watched.
watch_each-keeps :
    (x : ℕ) (cs : List ℕ) (w : Watched)
    → is_in x w.fds ≡ true
    → is_in x (watch_each cs w).fds ≡ true
watch_each-keeps x [] w h = h
watch_each-keeps x (c ∷ cs) w h =
    watch_each-keeps x cs _
      (either (λ v. is_in x v.fds ≡ true) (ltb 0 c) (watch c w) w (ground arith) h)

pub watch_each-clients :
    (x : ℕ) (cs : List ℕ) (w : Watched)
    → 0 < x
    → is_in x cs ≡ true
    → is_in x (watch_each cs w).fds ≡ true
watch_each-clients x [] w pos h = cc h
watch_each-clients x (c ∷ cs) w pos h = elim (Bool-cases (x == c)) [
  | inl e ↦
      let same = ==-eq x c e in
      let some_bit : ltb 0 c ≡ true = ground arith in
      watch_each-keeps x cs (if ltb 0 c then watch c w else w)
        (either_true (λ v. is_in x v.fds ≡ true) (ltb 0 c) (watch c w) w some_bit (ground arith))
  | inr e ↦ watch_each-clients x cs (if ltb 0 c then watch c w else w) pos (ground arith)
]

-- The sets of a round, for a table that holds `cs`.
abbrev pub watched : ℕ → ℕ → List ℕ → Watched
watched fd sock cs = watch_each cs (watch sock (watch fd nothing))

pub watch_all-watched :
    (cs : List ℕ) (fd sock : ℕ) (σ : Server)
    → Holds cs σ
    → watch_all fd sock σ ≡ ok (watched fd sock cs)
unfolding watch_all
watch_all-watched cs fd sock σ h =
    ap (λ n. watch_clients n 0 σ (watch sock (watch fd nothing))) h.counted
    ∙ watch_clients-each [] cs h.spare 0 σ _ h.slots_are refl (omega (arith, h.counted))

-- For a table that holds clients, a round waits for the driver, for the connection socket and for
-- every client whose socket is above 0, and the first argument of `select` is above every
-- descriptor that it waits for.
pub watch_all-Covers :
    (cs : List ℕ) (fd sock : ℕ) (σ : Server)
    → Holds cs σ
    → (w : Watched) × (watch_all fd sock σ ≡ ok w)
      × Covers w
      × (is_in fd w.fds ≡ true)
      × (is_in sock w.fds ≡ true)
      × ((x : ℕ) → 0 < x → is_in x cs ≡ true → is_in x w.fds ≡ true)
watch_all-Covers cs fd sock σ h =
    let w0 = nothing in
    let w2 = watch sock (watch fd w0) in
    (
      watched fd sock cs,
      watch_all-watched cs fd sock σ h,
      watch_each-Covers cs w2
          (watch-Covers sock (watch fd w0) (watch-Covers fd w0 (λ x m. ground arith))),
      watch_each-keeps fd cs w2 (ground arith),
      watch_each-keeps sock cs w2 (ground arith),
      λ x pos m. watch_each-clients x cs w2 pos m,
    )
