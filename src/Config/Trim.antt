-- ===== src/Config/Trim.antt =====
-- trim (raspberrypi/irbrgd/trim.c:30): white space and comments off both ends of a line.
pub mod Laws
use irbridge.Base.{
  ℕ, zero, suc, ◌≡◌, Bool, true, false, not, ◌&&◌, ◌||◌, Option, none, some, List, [], ◌∷◌, ◌++◌,
  ◌==◌, if◌then◌else◌,
}

-- The text that `s` holds afterwards, of which the function returns the length, and `*multiline`.
pub record Trimmed : Type 0 where
  pub text : List ℕ
  pub multiline : Bool

abbrev pub newline : ℕ
newline = 10

abbrev pub carriage : ℕ
carriage = 13

abbrev pub tab : ℕ
tab = 9

abbrev pub space : ℕ
space = 32

abbrev pub hash : ℕ
hash = 35

abbrev pub backslash : ℕ
backslash = 92

-- "regular char"
abbrev pub regular : ℕ → Bool
regular c = not (c == newline) && not (c == carriage) && not (c == tab) && not (c == space)

-- The first loop; `none` where the line starts with a comment.
unfoldable pub trim_head : List ℕ → Bool → List ℕ → Option (List ℕ)
trim_head [] b out = some out
trim_head (c ∷ cs) b out =
    let b' = b || regular c in
    let copy = trim_head cs b' (out ++ (c ∷ [])) in
    let skip = trim_head cs b' out in
    if b' then elim out [ [] ↦ if c == hash then none else copy | x ∷ xs ↦ copy ] else skip

abbrev pub is_blank : List ℕ → Bool
is_blank [] = false
is_blank (c ∷ cs) = c == space || c == tab

-- The second loop, from the end: `before` is what is left of it, the last character first, and
-- `after` is what it has passed, cut at the first zero.
unfoldable pub trim_tail : List ℕ → Bool → Bool → Bool → List ℕ → Trimmed
trim_tail [] b bnl multl after = record { text = after; multiline = multl }
trim_tail (c ∷ before) b bnl multl after =
    let b' = b || regular c in
    let bnl' = bnl || not (c == newline) && not (c == carriage) && not (c == backslash) in
    let escape = not bnl' && c == backslash in
    let comment = b' && not escape && c == hash && is_blank before in
    let c' = if escape then space else c in
    trim_tail before (b' && not comment) bnl' ((multl || escape) && not comment)
      (if b' && not comment then c' ∷ after else [])

abbrev pub backwards : List ℕ → List ℕ → List ℕ
backwards [] acc = acc
backwards (c ∷ cs) acc = backwards cs (c ∷ acc)

unfoldable pub trim : List ℕ → Trimmed
trim s = elim (trim_head s false []) [
  | none ↦ record { text = []; multiline = false }
  | some out ↦ trim_tail (backwards out []) false false false []
]
