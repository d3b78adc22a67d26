-- ===== src/Base/Effects.antt =====
-- What a piece of C code can do: return, touch memory out of bounds, or exhaust a model's fuel.
use Prim.Native.Nat.{ℕ, zero, suc, ◌<◌}
use mathlib.Core.Logic.{◌≢◌}
use mathlib.Core.Bool.{Bool, true, false}
use mathlib.Core.Path.{◌≡◌, refl, ap, ◌∙◌}
use mathlib.Core.List.{List, [], ◌∷◌, ◌++◌}
use native.Mathlib.Omega.{arith}
use irbridge.Base.Tests.{ltb, if◌then◌else◌}
use irbridge.Base.Lists.{length, set, get_elem?, length-append, set-append}
use mathlib.Core.Option.{none, some}

pub data Outcome {ℓ} (A : Type ℓ) : Type ℓ where
  ok : A → Outcome A
  fault : Outcome A
  out_of_fuel : Outcome A

infixl 5 ◌>>=◌ ◌>>◌
abbrev pub ◌>>=◌ {ℓ κ} : {A : Type ℓ} {B : Type κ} → Outcome A → (A → Outcome B) → Outcome B
ok a >>= f = f a
fault >>= f = fault
out_of_fuel >>= f = out_of_fuel

abbrev pub ◌>>◌ {ℓ κ} : {A : Type ℓ} {B : Type κ} → Outcome A → Outcome B → Outcome B
m >> k = m >>= λ _. k

-- `a[i] = v` and `a[i]`, with the bounds that C leaves unchecked.
module _ {ℓ} {A : Type ℓ} where
  unfoldable pub write : List A → ℕ → A → Outcome (List A)
  write xs i v = if ltb i (length xs) then ok (set xs i v) else fault

  abbrev pub read : List A → ℕ → Outcome A
  read xs i = elim (get_elem? xs i) [ none ↦ fault | some x ↦ ok x ]

  pub write_in : (xs : List A) (i : ℕ) (v : A) → i < length xs → write xs i v ≡ ok (set xs i v)
  unfolding write
  write_in xs i v h = ground arith

-- A write just behind a prefix.
pub write-append {ℓ} :
    {A : Type ℓ} (xs ys : List A) (y v : A) (n : ℕ)
    → n ≡ length xs
    → write (xs ++ (y ∷ ys)) n v ≡ ok (xs ++ (v ∷ ys))
write-append xs ys y v n e =
    write_in (xs ++ (y ∷ ys)) n v (rw length-append (omega arith))
    ∙ ap ok (set-append xs ys y v n e)

pub read-append {ℓ} :
    {A : Type ℓ} (xs ys : List A) (y : A) (n : ℕ) → n ≡ length xs → read (xs ++ (y ∷ ys)) n ≡ ok y
read-append [] ys y zero e = refl
read-append [] ys y (suc n) e = absurd (omega arith)
read-append (x ∷ xs) ys y zero e = absurd (omega arith)
read-append (x ∷ xs) ys y (suc n) e = read-append xs ys y n (omega arith)

-- The elements of a block that `malloc` has just returned, whatever they are: `alloc n` stands
-- for a block of `n` elements. That the block is there and has `n` elements is the hypothesis.
abbrev pub Allocates : (ℕ → List ℕ) → Type 0
Allocates alloc = (n : ℕ) → length (alloc n) ≡ n

pub >>=-assoc {ℓ κ μ} :
    {A : Type ℓ} {B : Type κ} {C : Type μ} (m : Outcome A) (f : A → Outcome B) (g : B → Outcome C)
    → ((m >>= f) >>= g) ≡ (m >>= λ a. f a >>= g)
>>=-assoc (ok a) f g = refl
>>=-assoc fault f g = refl
>>=-assoc out_of_fuel f g = refl

-- Equal continuations.
pub >>=-cong {ℓ κ} :
    {A : Type ℓ} {B : Type κ} (m : Outcome A) (f g : A → Outcome B)
    → ((a : A) → f a ≡ g a)
    → (m >>= f) ≡ (m >>= g)
>>=-cong (ok a) f g h = h a
>>=-cong fault f g h = refl
>>=-cong out_of_fuel f g h = refl

pub >>=-ok {ℓ} :
    {A : Type ℓ} (m : Outcome A) (f : A → Outcome A) → ((a : A) → f a ≡ ok a) → (m >>= f) ≡ m
>>=-ok (ok a) f h = h a
>>=-ok fault f h = refl
>>=-ok out_of_fuel f h = refl

-- Code that needs no fuel.
abbrev pub Ends {ℓ} : {A : Type ℓ} → Outcome A → Type ℓ
Ends {A} m = m ≢ out_of_fuel

pub Ends->>= {ℓ κ} :
    {A : Type ℓ} {B : Type κ} (m : Outcome A) (f : A → Outcome B)
    → Ends m
    → ((a : A) → Ends (f a))
    → Ends (m >>= f)
Ends->>= (ok a) f h k = k a
Ends->>= fault f h k = λ e. cc
Ends->>= out_of_fuel f h k = absurd (h refl)

pub Ends-if {ℓ} :
    {A : Type ℓ} (b : Bool) (m n : Outcome A) → Ends m → Ends n → Ends (if b then m else n)
Ends-if true m n h k = h
Ends-if false m n h k = k

pub Ends-ok {ℓ} : {A : Type ℓ} (a : A) → Ends (ok a)
Ends-ok a e = cc

pub Ends-fault {ℓ} : {A : Type ℓ} → let m : Outcome A = fault in Ends m
Ends-fault e = cc

pub Ends-write {ℓ} : {A : Type ℓ} (xs : List A) (i : ℕ) (v : A) → Ends (write xs i v)
unfolding write
Ends-write xs i v = Ends-if (ltb i (length xs)) _ _ (Ends-ok _) Ends-fault

pub Ends-read {ℓ} : {A : Type ℓ} (xs : List A) (i : ℕ) → Ends (read xs i)
Ends-read [] i = Ends-fault
Ends-read (x ∷ xs) zero = Ends-ok x
Ends-read (x ∷ xs) (suc i) = Ends-read xs i

pub read_in {ℓ} : {A : Type ℓ} (xs : List A) (i : ℕ) → i < length xs → (x : A) × (read xs i ≡ ok x)
read_in [] i h = absurd (omega arith)
read_in (x ∷ xs) zero h = (x, refl)
read_in (x ∷ xs) (suc i) h = read_in xs i (omega arith)
