-- ===== src/Starfrit/Setup.antt =====
-- starfrit_setup (raspberrypi/irbrgd/starfrit.c:66): the scale's clients from the configuration.
-- `strtok` is a parameter, as the tokens that it returns one after the other.
pub mod Laws
use irbridge.Base.{
  ℕ, zero, suc, ◌+◌, ◌%◌, Bool, true, false, ◌&&◌, ◌||◌, List, [], ◌∷◌, ◌++◌, Outcome, ok, fault,
  ◌>>=◌, length, codes, ltb, leb, ◌==◌, if◌then◌else◌,
}
use irbridge.Config.Trim.{Trimmed, trim}
use irbridge.Starfrit.Floats.{Float}
use irbridge.Starfrit.{Client}

abbrev pub max_conf : ℕ
max_conf = 128

-- `strncmp(p, "http://", 7) == 0` for the first argument.
abbrev pub starts_with : List ℕ → List ℕ → Bool
starts_with [] p = true
starts_with (x ∷ xs) [] = false
starts_with (x ∷ xs) (y ∷ ys) = x == y && starts_with xs ys

module _ (fl : Float) where
  open fl use {F}

  -- `starfritconf`: the entries below `starfritcount`, and the bounds stored in the next one.
  pub record Entries : Type 0 where
    pub done : List (Client fl)
    pub min : F
    pub max : F

  -- `if (x < 0) x = 0;`
  abbrev pub at_least_zero : F → F
  at_least_zero x = if fl.lt x fl.zero then fl.zero else x

  -- The store of one token; `n` counts the tokens.
  unfoldable pub set_entry : ℕ → List ℕ → Entries → Entries
  set_entry n p e =
      if n % 3 == 0
      then record e { min = at_least_zero (fl.atof p) }
      else if n % 3 == 1
      then record e { max = at_least_zero (fl.atof p) }
      else if starts_with (codes "http://") p
      then record {
        done = e.done ++ (record { min = e.min; max = e.max; url = p } ∷ []);
        min = fl.zero;
        max = fl.zero;
      }
      else e

  -- The loop over the tokens; a store behind the last entry is a fault.
  unfoldable pub setup_tokens : List (List ℕ) → ℕ → Entries → Outcome Entries
  setup_tokens [] n e = ok e
  setup_tokens (p ∷ ps) n e =
      let text = (trim p).text in
      let touches = ltb (n % 3) 2 || starts_with (codes "http://") text in
      let rest = setup_tokens ps (n + 1) (set_entry n text e) in
      if touches && leb max_conf (length e.done) then fault else rest

  unfoldable pub starfrit_setup : List (List ℕ) → Outcome (List (Client fl))
  starfrit_setup tokens =
      setup_tokens tokens 0 (record { done = []; min = fl.zero; max = fl.zero }) >>= λ e. ok e.done
