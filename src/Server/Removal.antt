-- ===== src/Server/Removal.antt =====
-- remove_client (raspberrypi/irbrgd/server.c:81) as a function on the list of clients.
use irbridge.Base.{
  ℕ, suc, ◌+◌, ◌-◌, Bool, true, false, ◌||◌, List, [], ◌∷◌, ◌++◌, ok, ◌≡◌, refl, sym, ap, ◌∙◌, inl,
  inr, Bool-cases, length, take, ltb, ◌==◌, if◌then◌else◌, arith, length-append, write-append,
  read-append, snoc-append,
}
use irbridge.Server.{move_up}

-- The list without the first `s`, or without its last element where there is no `s`.
abbrev pub removed : ℕ → List ℕ → List ℕ
removed s [] = []
removed s (c ∷ []) = []
removed s (c ∷ d ∷ cs) = if c == s then d ∷ cs else c ∷ removed s (d ∷ cs)

-- What the loop leaves in the slots in use.
abbrev pub slid : ℕ → Bool → List ℕ → List ℕ
slid s up [] = []
slid s up (c ∷ []) = c ∷ []
slid s up (c ∷ d ∷ cs) = let up' = c == s || up in (if up' then d else c) ∷ slid s up' (d ∷ cs)

pub length-slid : (s : ℕ) (up : Bool) (cs : List ℕ) → length (slid s up cs) ≡ length cs
length-slid s up [] = refl
length-slid s up (c ∷ []) = refl
length-slid s up (c ∷ d ∷ cs) = ap suc (length-slid s (c == s || up) (d ∷ cs))

-- The loop from the slot behind `pre`.
pub move_up-slid :
    (s : ℕ) (pre rest spare : List ℕ) (idx count : ℕ) (up : Bool)
    → idx ≡ length pre
    → count ≡ idx + length rest
    → move_up s (length rest) idx up count (pre ++ (rest ++ spare))
      ≡ ok (pre ++ (slid s up rest ++ spare))
unfolding move_up
move_up-slid s pre [] spare idx count up e k = refl
move_up-slid s pre (c ∷ []) spare idx count up e k =
    let last : ltb (suc idx) count ≡ false = ground arith in
    rw (read-append pre spare c idx e)
      (elim (Bool-cases (c == s || up)) [ inl h ↦ rw (h, last) refl | inr h ↦ rw h refl ])
move_up-slid s pre (c ∷ d ∷ cs) spare idx count up e k =
    let more : ltb (suc idx) count ≡ true = ground arith in
    let tail : List ℕ = (d ∷ cs) ++ spare in
    let then_rest : (x : ℕ) (up' : Bool)
        → move_up s (suc (length cs)) (suc idx) up' count (pre ++ (x ∷ tail))
          ≡ ok (pre ++ (x ∷ (slid s up' (d ∷ cs) ++ spare))) =
      λ x up'.
        ap (move_up s (suc (length cs)) (suc idx) up' count) (snoc-append pre tail x)
        ∙ move_up-slid s (pre ++ (x ∷ [])) (d ∷ cs) spare (suc idx) count up'
            (omega (arith, length-append pre (x ∷ []))) (omega arith)
        ∙ ap ok (sym (snoc-append pre (slid s up' (d ∷ cs) ++ spare) x)) in
    rw (read-append pre tail c idx e) (elim (Bool-cases (c == s || up)) [
      | inl h ↦
          rw
            (
              h,
              more,
              snoc-append pre tail c,
              read-append (pre ++ (c ∷ [])) (cs ++ spare) d (suc idx)
                  (omega (arith, length-append pre (c ∷ []))),
              sym (snoc-append pre tail c),
              write-append pre tail c d idx e,
            )
            (then_rest d true)
      | inr h ↦ rw h (then_rest c false)
    ])

-- Once the rest moves up, all of it does.
slid_up : (s : ℕ) (c : ℕ) (cs : List ℕ) → take (length cs) (slid s true (c ∷ cs)) ≡ cs
slid_up s c [] = refl
slid_up s c (d ∷ cs) = elim (Bool-cases (c == s)) [
  | inl h ↦ rw h (ap (◌∷◌ d) (slid_up s d cs))
  | inr h ↦ rw h (ap (◌∷◌ d) (slid_up s d cs))
]

pub take-slid :
    (s c : ℕ) (cs : List ℕ) → take (length cs) (slid s false (c ∷ cs)) ≡ removed s (c ∷ cs)
take-slid s c [] = refl
take-slid s c (d ∷ cs) = elim (Bool-cases (c == s)) [
  | inl h ↦ rw h (ap (◌∷◌ d) (slid_up s d cs))
  | inr h ↦ rw h (ap (◌∷◌ c) (take-slid s d cs))
]

pub length-removed : (s : ℕ) (cs : List ℕ) → length (removed s cs) ≡ length cs - 1
length-removed s [] = refl
length-removed s (c ∷ []) = refl
length-removed s (c ∷ d ∷ cs) = elim (Bool-cases (c == s)) [
  | inl h ↦ rw h (omega arith)
  | inr h ↦ rw h (omega (arith, length-removed s (d ∷ cs)))
]
