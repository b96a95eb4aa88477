-- ===== src/Base/Outcome.antt =====
-- What a call ends in: a value, a panic, or undefined behaviour.
use vec.Base.Tests.{if◌then◌else◌}
use mathlib.Core.Path.{◌≡◌, refl}
use mathlib.Core.Bool.{Bool, true, false}

pub data Outcome {ℓ} (A : Type ℓ) : Type ℓ where
  done : A → Outcome A
  panic : Outcome A
  undefined : Outcome A

infixl 5 ◌>>=◌
abbrev pub ◌>>=◌ {ℓ κ} : {A : Type ℓ} {B : Type κ} → Outcome A → (A → Outcome B) → Outcome B
done a >>= f = f a
panic >>= f = panic
undefined >>= f = undefined

-- The call returns, and its result satisfies `P`.
abbrev pub Returns {ℓ} : {A : Type ℓ} → (A → Type 0) → Outcome A → Type 0
Returns P (done a) = P a
Returns P panic = ⊥
Returns P undefined = ⊥

pub Returns-map {ℓ} :
    {A : Type ℓ} {P Q : A → Type 0}
    → ((a : A) → P a → Q a)
    → (o : Outcome A) → Returns P o
    → Returns Q o
Returns-map f (done a) h = f a h
Returns-map f panic h = h
Returns-map f undefined h = h

pub Returns-bind {ℓ κ} :
    {A : Type ℓ} {B : Type κ} {P : A → Type 0} (Q : B → Type 0) (f : A → Outcome B)
    → ((a : A) → P a → Returns Q (f a))
    → (o : Outcome A) → Returns P o
    → Returns Q (o >>= f)
Returns-bind Q f g (done a) h = g a h
Returns-bind Q f g panic h = h
Returns-bind Q f g undefined h = h

pub Returns-if {ℓ} :
    {A : Type ℓ} (P : A → Type 0) (g : Bool) (o o' : Outcome A)
    → (g ≡ true → Returns P o)
    → Returns P o'
    → Returns P (if g then o else o')
Returns-if P true o o' h h' = h refl
Returns-if P false o o' h h' = h'
