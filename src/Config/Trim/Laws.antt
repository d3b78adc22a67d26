-- ===== src/Config/Trim/Laws.antt =====
-- What trim (raspberrypi/irbrgd/trim.c:30) makes of a line that is not continued.
use irbridge.Base.{
  ℕ, ◌≡◌, ◌≢◌, refl, sym, ap, ◌∙◌, Bool, true, false, not, ◌&&◌, ◌||◌, some, inl, inr, Bool-cases,
  List, [], ◌∷◌, ◌++◌, append_assoc, append-nil, All, ◌==◌, arith,
}
use irbridge.Config.Trim.{
  newline, carriage, hash, backslash, regular, is_blank, trim_head, trim_tail, backwards, trim,
}

-- White space, or a line's end.
abbrev pub IsWhite : ℕ → Type 0
IsWhite c = regular c ≡ false

-- No `#` stands behind a blank, in a text that is given from its end.
abbrev pub IsClean : List ℕ → Type 0
IsClean [] = Unit
IsClean (c ∷ before) = ((c == hash && is_blank before) ≡ false) × IsClean before

head_lead :
    (lead cs : List ℕ) → All IsWhite lead → trim_head (lead ++ cs) false [] ≡ trim_head cs false []
unfolding trim_head
head_lead [] cs h = refl
head_lead (w ∷ lead) cs h = rw h.0 (head_lead lead cs h.1)

head_body : (cs out : List ℕ) (x : ℕ) → trim_head cs true (x ∷ out) ≡ some ((x ∷ out) ++ cs)
unfolding trim_head
head_body [] out x = ap (λ l. some (x ∷ l)) (sym (append-nil out))
head_body (c ∷ cs) out x =
    head_body cs (out ++ (c ∷ [])) x ∙ ap (λ l. some (x ∷ l)) (append_assoc out (c ∷ []) cs)

head_start :
    (c : ℕ) (cs : List ℕ)
    → regular c ≡ true
    → (c == hash) ≡ false
    → trim_head (c ∷ cs) false [] ≡ some (c ∷ cs)
unfolding trim_head
head_start c cs h k = rw (h, k) (head_body cs [] c)

white_no_escape : (c : ℕ) → IsWhite c → (c == backslash) ≡ false
white_no_escape c h = ground arith

tail_white :
    (c : ℕ) (before : List ℕ) (bnl : Bool)
    → IsWhite c
    → (bnl' : Bool) × (trim_tail (c ∷ before) false bnl false []
        ≡ trim_tail before false bnl' false [])
unfolding trim_tail
tail_white c before bnl h =
    elim (Bool-cases (bnl || not (c == newline) && not (c == carriage) && not false)) [
      | inl k ↦ (true, rw (h, white_no_escape c h, k) refl)
      | inr k ↦ (false, rw (h, white_no_escape c h, k) refl)
    ]

-- The loop passes the white space at the end without a trace but in `bnl`.
tail_trail :
    (trail before : List ℕ)
    → All IsWhite trail
    → (bnl : Bool) × (trim_tail (backwards trail before) false false false []
        ≡ trim_tail before false bnl false [])
tail_trail [] before h = (false, refl)
tail_trail (c ∷ trail) before h =
    let (bnl, e) = tail_trail trail (c ∷ before) h.1 in
    let (bnl', e') = tail_white c before bnl h.0 in (bnl', e ∙ e')

-- Within the text every character is kept.
tail_body :
    (before after : List ℕ)
    → IsClean before
    → trim_tail before true true false after
      ≡ record { text = backwards before after; multiline = false }
unfolding trim_tail
tail_body [] after h = refl
tail_body (c ∷ before) after h = rw h.0 (tail_body before (c ∷ after) h.1)

tail_end :
    (z : ℕ) (before : List ℕ) (bnl : Bool)
    → regular z ≡ true
    → (z == backslash) ≡ false
    → IsClean (z ∷ before)
    → trim_tail (z ∷ before) false bnl false []
      ≡ record { text = backwards before (z ∷ []); multiline = false }
unfolding trim_tail
tail_end z before bnl h k clean =
    let seen : (bnl || not (z == newline) && not (z == carriage) && not false) ≡ true =
      ground arith in
    rw (h, k, seen, clean.0) (tail_body before (z ∷ []) clean.1)

backwards-append : (xs ys acc : List ℕ) → backwards (xs ++ ys) acc ≡ backwards ys (backwards xs acc)
backwards-append [] ys acc = refl
backwards-append (x ∷ xs) ys acc = backwards-append xs ys (x ∷ acc)

backwards_twice :
    (xs acc acc' : List ℕ) → backwards (backwards xs acc) acc' ≡ backwards acc (xs ++ acc')
backwards_twice [] acc acc' = refl
backwards_twice (x ∷ xs) acc acc' = backwards_twice xs (x ∷ acc) acc'

-- Let a text that starts with a regular character but `#`, ends with one but a backslash, and has
-- no `#` behind a blank stand between white space. `trim` leaves exactly the text, and the line is
-- not continued. The text is `c ∷ cs`, and read from its end `z ∷ before`.
pub trim_text :
    (lead trail cs before : List ℕ) (c z : ℕ)
    → backwards (z ∷ before) [] ≡ c ∷ cs
    → All IsWhite lead
    → All IsWhite trail
    → regular c ≡ true
    → c ≢ hash
    → regular z ≡ true
    → z ≢ backslash
    → IsClean (z ∷ before)
    → trim (lead ++ (c ∷ (cs ++ trail))) ≡ record { text = c ∷ cs; multiline = false }
unfolding trim
trim_text lead trail cs before c z e hl ht hc nc hz nz clean =
    let no_hash : (c == hash) ≡ false = ground (arith, nc) in
    let no_escape : (z == backslash) ≡ false = ground (arith, nz) in
    let (bnl, passed) = tail_trail trail (z ∷ before) ht in
    let reversed : backwards (c ∷ cs) [] ≡ z ∷ before =
      ap (λ l. backwards l []) (sym e)
      ∙ backwards_twice (z ∷ before) [] []
      ∙ append-nil (z ∷ before) in
    rw
      (
        trim,
        head_lead lead (c ∷ (cs ++ trail)) hl,
        head_start c (cs ++ trail) hc no_hash,
        backwards-append (c ∷ cs) trail [],
        reversed,
      )
      (passed
        ∙ tail_end z before bnl hz no_escape clean
        ∙ ap (λ l. record { text = l; multiline = false }) e)
