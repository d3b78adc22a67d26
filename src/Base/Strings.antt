-- ===== src/Base/Strings.antt =====
-- C strings in memory: characters up to a zero.
use Prim.Native.Nat.{ℕ}
use Prim.Native.Char.{code}
use Prim.Native.String.{String}
use mathlib.Core.Path.{◌≡◌, refl}
use mathlib.Core.Logic.{◌≢◌}
use mathlib.Core.Bool.{false}
use mathlib.Core.List.{List, [], ◌∷◌, ◌++◌}
use native.Mathlib.Omega.{arith}
use irbridge.Base.Tests.{◌==◌, if◌then◌else◌}
use irbridge.Base.Lists.{All}
use irbridge.Base.Effects.{Outcome, ok, fault, ◌>>=◌, Ends, Ends->>=, Ends-if, Ends-ok, Ends-fault}

-- The characters that `strlen`, `strcpy` and the like walk over; a fault if no zero ends them.
unfoldable pub c_string : List ℕ → Outcome (List ℕ)
c_string [] = fault
c_string (c ∷ cs) = let rest = c_string cs >>= λ s. ok (c ∷ s) in if c == 0 then ok [] else rest

-- A string has no zero inside.
abbrev pub IsText : List ℕ → Type 0
IsText = All (λ c. c ≢ 0)

pub c_string-append : (s junk : List ℕ) → IsText s → c_string (s ++ (0 ∷ junk)) ≡ ok s
unfolding c_string
c_string-append [] junk h = refl
c_string-append (c ∷ s) junk h =
    let more : (c == 0) ≡ false = ground (arith, h.0) in rw (more, c_string-append s junk h.1)

-- The code points of a literal, its bytes if it is ASCII.
abbrev pub codes : String → List ℕ
codes String.[] = []
codes (String.◌∷◌ c s) = code c ∷ codes s

pub Ends-c_string : (a : List ℕ) → Ends (c_string a)
unfolding c_string
Ends-c_string [] = Ends-fault
Ends-c_string (c ∷ cs) =
    Ends-if (c == 0) _ _ (Ends-ok []) (Ends->>= (c_string cs) _ (Ends-c_string cs) (λ s. Ends-ok _))
