-- ===== src/Base/Tests.antt =====
-- Boolean tests of C on native numbers, and branching.
use Prim.Native.Nat.{ℕ, zero, suc, ◌<◌, compare, Ordering}
use mathlib.Core.Path.{◌≡◌, refl}
use mathlib.Core.Logic.{◌⊎◌, inl, inr}
use mathlib.Core.Bool.{Bool, true, false, ◌&&◌}
use native.Mathlib.Omega.{arith}

abbrev pub ltb : ℕ → ℕ → Bool
ltb a b = elim (compare a b) [ Ordering.lt ↦ true | _ ↦ false ]

abbrev pub leb : ℕ → ℕ → Bool
leb a b = elim (compare a b) [ Ordering.gt ↦ false | _ ↦ true ]

infix 50 ◌==◌
abbrev pub ◌==◌ : ℕ → ℕ → Bool
a == b = elim (compare a b) [ Ordering.eq ↦ true | _ ↦ false ]

infix 1 if◌then◌else◌
abbrev pub if◌then◌else◌ {ℓ} : {A : Type ℓ} → Bool → A → A → A
if true then x else y = x
if false then x else y = y

pub Bool-cases : (b : Bool) → (b ≡ true) ⊎ (b ≡ false)
Bool-cases true = inl refl
Bool-cases false = inr refl

pub ==-eq : (a b : ℕ) → (a == b) ≡ true → a ≡ b
==-eq a b h = ground arith

pub ==_refl : (a : ℕ) → (a == a) ≡ true
==_refl a = ground arith

-- Whether a test succeeds on every number below `bound`; a table that is computed once.
unfoldable pub table_holds : ℕ → (ℕ → Bool) → Bool
table_holds zero test = true
table_holds (suc bound) test = table_holds bound test && test bound

pub checked_below :
    (bound : ℕ) (test : ℕ → Bool) (i : ℕ)
    → table_holds bound test ≡ true
    → i < bound
    → test i ≡ true
unfolding table_holds
checked_below zero test i all inside = absurd (omega arith)
checked_below (suc bound) test i all inside = ground (arith, checked_below bound test i)
