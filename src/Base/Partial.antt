-- ===== src/Base/Partial.antt =====
-- Code that may fault: `none` is a fault, such as a read through a null pointer.
use mathlib.Core.Path.{◌≡◌, refl, subst}
use mathlib.Core.Option
use mathlib.Core.Option.{Option, none, some}

infixl 5 ◌>>=◌
abbrev pub ◌>>=◌ {ℓ κ} : {A : Type ℓ} {B : Type κ} → Option A → (A → Option B) → Option B
none >>= f = none
some a >>= f = f a

-- The code does not fault, and what it returns is as `P` says.
abbrev pub Returns {ℓ} : {A : Type ℓ} → Option A → (A → Type 0) → Type 0
Returns none P = ⊥
Returns (some a) P = P a

module _ {ℓ} {A : Type ℓ} (P : A → Type 0) where
  pub Returns-bind {κ} :
      {B : Type κ} (Q : B → Type 0) (m : Option A) (f : A → Option B)
      → Returns m P
      → ((a : A) → m ≡ some a → P a → Returns (f a) Q)
      → Returns (m >>= f) Q
  Returns-bind Q none f h k = absurd h
  Returns-bind Q (some a) f h k = k a refl h

  pub Returns-mono :
      (Q : A → Type 0) (m : Option A) → Returns m P → ((a : A) → P a → Q a) → Returns m Q
  Returns-mono Q none h k = absurd h
  Returns-mono Q (some a) h k = k a h

  pub Returns-value : (m : Option A) → Returns m P → (a : A) × (m ≡ some a) × P a
  Returns-value none h = absurd h
  Returns-value (some a) h = (a, refl, h)

  pub Returns_at : {m : Option A} (a : A) → m ≡ some a → Returns m P → P a
  Returns_at a e h = subst (λ o. Returns o P) e h

pub >>=-eq-some {ℓ κ} :
    {A : Type ℓ} {B : Type κ} (m : Option A) (f : A → Option B) {b : B}
    → (m >>= f) ≡ some b
    → (a : A) × (m ≡ some a) × (f a ≡ some b)
>>=-eq-some none f e = cc
>>=-eq-some (some a) f e = (a, refl, e)

pub Returns-map {ℓ κ} :
    {A : Type ℓ} {B : Type κ} (Q : B → Type 0) (f : A → B) (m : Option A)
    → Returns m (λ a. Q (f a))
    → Returns (Option.map f m) Q
Returns-map Q f none h = absurd h
Returns-map Q f (some a) h = h
