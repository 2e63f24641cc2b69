-- ===== src/Prelude/Outcome.antt =====
-- How a run ends, and what holds of its result.
use mathlib.Core.Path.{◌≡◌, refl, subst}
use mathlib.Core.Bool.{Bool, true, false}
use android_vendor_tms.Prelude.Tests.{if◌then◌else◌}

-- A run returns, reads or writes outside what is allocated, or is still running when its fuel is
-- spent.
pub data Outcome {ℓ} (A : Type ℓ) : Type ℓ where
  returned : A → Outcome A
  fault : Outcome A
  unfinished : Outcome A

infixl 5 ◌>>=◌
abbrev pub ◌>>=◌ {ℓ κ} : {A : Type ℓ} {B : Type κ} → Outcome A → (A → Outcome B) → Outcome B
returned a >>= f = f a
fault >>= f = fault
unfinished >>= f = unfinished

-- What holds of the result of a run that returns.
abbrev pub Ensures : {A : Type 0} → (A → Type 0) → Outcome A → Type 0
Ensures P (returned a) = P a
Ensures P fault = Unit
Ensures P unfinished = Unit

pub bind-Ensures :
    {A B : Type 0} (P : B → Type 0) (o : Outcome A) (f : A → Outcome B)
    → ((a : A) → Ensures P (f a))
    → Ensures P (o >>= f)
bind-Ensures P (returned a) f h = h a
bind-Ensures P fault f h = tt
bind-Ensures P unfinished f h = tt

pub then-Ensures :
    {A B : Type 0} (Q : A → Type 0) (P : B → Type 0) (o : Outcome A) (f : A → Outcome B)
    → Ensures Q o
    → ((a : A) → Q a → Ensures P (f a))
    → Ensures P (o >>= f)
then-Ensures Q P (returned a) f q h = h a q
then-Ensures Q P fault f q h = tt
then-Ensures Q P unfinished f q h = tt

pub if-Ensures :
    {A : Type 0} (P : A → Type 0) (b : Bool) (x y : Outcome A)
    → (b ≡ true → Ensures P x)
    → (b ≡ false → Ensures P y)
    → Ensures P (if b then x else y)
if-Ensures P true x y h k = h refl
if-Ensures P false x y h k = k refl

-- What every result of a run has, it ensures.
pub Ensures-all :
    {A : Type 0} (P : A → Type 0) (o : Outcome A) → ((a : A) → o ≡ returned a → P a) → Ensures P o
Ensures-all P (returned a) h = h a refl
Ensures-all P fault h = tt
Ensures-all P unfinished h = tt

-- The run returns, and what it returns has the property.
abbrev pub Returns : {A : Type 0} → (A → Type 0) → Outcome A → Type 0
Returns P (returned a) = P a
Returns P fault = ⊥
Returns P unfinished = ⊥

pub then-Returns :
    {A B : Type 0} (Q : A → Type 0) (P : B → Type 0) (o : Outcome A) (f : A → Outcome B)
    → Returns Q o
    → ((a : A) → Q a → Returns P (f a))
    → Returns P (o >>= f)
then-Returns Q P (returned a) f q h = h a q
then-Returns Q P fault f q h = absurd q
then-Returns Q P unfinished f q h = absurd q

pub if-Returns :
    {A : Type 0} (P : A → Type 0) (b : Bool) (x y : Outcome A)
    → (b ≡ true → Returns P x)
    → (b ≡ false → Returns P y)
    → Returns P (if b then x else y)
if-Returns P true x y h k = h refl
if-Returns P false x y h k = k refl

pub map-Returns :
    {A : Type 0} (P Q : A → Type 0) (o : Outcome A)
    → ((a : A) → P a → Q a)
    → Returns P o
    → Returns Q o
map-Returns P Q (returned a) h p = h a p
map-Returns P Q fault h p = p
map-Returns P Q unfinished h p = p

pub Ensures-returned :
    {A : Type 0} (P : A → Type 0) (o : Outcome A) (a : A) → Ensures P o → o ≡ returned a → P a
Ensures-returned P o a h e = subst (Ensures P) e h

-- A run that returns has a result with the property.
pub Returns-returned :
    {A : Type 0} (P : A → Type 0) (o : Outcome A) → Returns P o → (a : A) × (o ≡ returned a) × P a
Returns-returned P (returned a) h = (a, refl, h)
Returns-returned P fault h = absurd h
Returns-returned P unfinished h = absurd h
