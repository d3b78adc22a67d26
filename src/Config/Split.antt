-- ===== src/Config/Split.antt =====
-- splitKey (raspberrypi/irbrgd/trim.c:145): the first word of a line and what follows it.
pub mod Laws
use irbridge.Base.{
  ℕ, zero, suc, ◌+◌, ◌≢◌, ◌≡◌, refl, ap, ◌∙◌, Bool, true, false, not, ◌&&◌, ◌||◌, Option, none,
  some, List, [], ◌∷◌, ◌++◌, All, length, drop, ◌==◌, if◌then◌else◌, arith,
}
use irbridge.Config.Trim.{tab, space}

-- The text with its zeros, and the indices that `*pkey` and `*pargs` point to, if they are set.
pub record KeySplit : Type 0 where
  pub text : List ℕ
  pub key : Option ℕ
  pub args : Option ℕ

abbrev pub white : ℕ → Bool
white c = c == tab || c == space

-- The loop from the index `i`, with the three flags; `key` and `args` are the pointers so far.
unfoldable pub split_from : List ℕ → ℕ → Bool → Bool → Bool → Option ℕ → Option ℕ → KeySplit
split_from [] i b1 b2 b3 key args = record { text = []; key = key; args = args }
split_from (c ∷ cs) i b1 b2 b3 key args =
    let b1' = b1 || not (white c) in
    let key' = if not b1 && b1' then some i else key in
    let b2' = b2 || b1' && white c in
    let c' = if b1' && not b2 && b2' then 0 else c in
    let b3' = b3 || b1' && b2' && not (white c) in
    let args' = if not b3 && b3' then some i else args in
    let rest = split_from cs (suc i) b1' b2' b3' key' args' in record rest { text = c' ∷ rest.text }

unfoldable pub split_key : List ℕ → KeySplit
split_key s = split_from s 0 false false false none none

-- The string from an index: the characters up to a zero, or to the end.
abbrev pub until_zero : List ℕ → List ℕ
until_zero [] = []
until_zero (c ∷ cs) = if c == 0 then [] else c ∷ until_zero cs

abbrev pub word_at : List ℕ → ℕ → List ℕ
word_at text i = until_zero (drop i text)

-- The strings that a split line's pointers point to.
abbrev pub key_of : KeySplit → Option (List ℕ)
key_of r = elim r.key [ none ↦ none | some i ↦ some (word_at r.text i) ]

abbrev pub args_of : KeySplit → Option (List ℕ)
args_of r = elim r.args [ none ↦ none | some i ↦ some (word_at r.text i) ]
