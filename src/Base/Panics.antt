-- ===== src/Base/Panics.antt =====
-- The outcome of code that may panic. A panic is not recovered from anywhere in the program, so it
-- carries no state.

use mathlib.Core.Path.{◌≡◌, refl, ap}
use mathlib.Core.Logic.{◌⊎◌, inl, inr}

pub data Outcome {ℓ} (A : Type ℓ) : Type ℓ where
  done : A → Outcome A
  panic : Outcome A

infixl 5 ◌>>=◌
abbrev pub ◌>>=◌ {ℓ κ} : {A : Type ℓ} {B : Type κ} → Outcome A → (A → Outcome B) → Outcome B
done a >>= f = f a
panic >>= f = panic

-- The code does not panic, and its result has the property.
abbrev pub Returns {ℓ} : {A : Type ℓ} → Outcome A → (A → Type 0) → Type 0
Returns (done a) P = P a
Returns panic P = ⊥

pub Returns-done {ℓ} :
    {A : Type ℓ} (o : Outcome A) (P : A → Type 0) → Returns o P → (a : A) × (o ≡ done a) × P a
Returns-done (done a) P r = (a, refl, r)
Returns-done panic P r = absurd r

pub Returns-map {ℓ} :
    {A : Type ℓ} (o : Outcome A) (P Q : A → Type 0)
    → ((a : A) → P a → Q a)
    → Returns o P
    → Returns o Q
Returns-map (done a) P Q f r = f a r
Returns-map panic P Q f r = r

pub Outcome-cases {ℓ} : {A : Type ℓ} (o : Outcome A) → (o ≡ panic) ⊎ ((a : A) × (o ≡ done a))
Outcome-cases (done a) = inr (a, refl)
Outcome-cases panic = inl refl

abbrev or_else {ℓ} : {A : Type ℓ} → Outcome A → A → A
or_else (done a) b = a
or_else panic b = b

pub done_inj {ℓ} : {A : Type ℓ} {a b : A} → done a ≡ done b → a ≡ b
done_inj {a = a} e = ap (λ o. or_else o a) e

-- The rest of code that has returned.
pub bind_done {ℓ κ} :
    {A : Type ℓ} {B : Type κ} (o : Outcome A) (f : A → Outcome B) (b : B)
    → (o >>= f) ≡ done b
    → (a : A) × (o ≡ done a) × (f a ≡ done b)
bind_done (done a) f b e = (a, refl, e)
bind_done panic f b e = absurd (cc)
