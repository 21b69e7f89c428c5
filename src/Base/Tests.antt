-- ===== src/Base/Tests.antt =====
-- Boolean tests on the native numbers, and the conditional, for the conditions of the C code.
use Prim.Native.Nat.{ℕ, ◌≤◌, ◌<◌, compare, Ordering}
use mathlib.Core.Path.{◌≡◌, refl}
use mathlib.Core.Logic.{◌↔◌, ◌⊎◌, inl, inr}
use mathlib.Core.Bool.{Bool, true, false}
use mathlib.Core.Option.{Option, none, some}
use native.Mathlib.Omega.{arith}

abbrev pub ltb : ℕ → ℕ → Bool
ltb a b = elim (compare a b) [ Ordering.lt ↦ true | _ ↦ false ]

abbrev pub leb : ℕ → ℕ → Bool
leb a b = elim (compare a b) [ Ordering.gt ↦ false | _ ↦ true ]

infix 50 ◌==◌
abbrev pub ◌==◌ : ℕ → ℕ → Bool
a == b = elim (compare a b) [ Ordering.eq ↦ true | _ ↦ false ]

infix 1 if◌then◌else◌
abbrev pub if◌then◌else◌ {ℓ} : {A : Type ℓ} → Bool → A → A → A
if true then x else y = x
if false then x else y = y

-- A property of both branches of a test.
pub one_of {ℓ ℓ'} :
    {A : Type ℓ} (P : A → Type ℓ') (test : Bool) (a b : A)
    → (test ≡ true → P a)
    → (test ≡ false → P b)
    → P (if test then a else b)
one_of P true a b f g = f refl
one_of P false a b f g = g refl

pub elim_of {ℓ ℓ'} :
    {A : Type ℓ} (P : A → Type ℓ') (test : Bool) (a b : A)
    → (test ≡ true → P a)
    → (test ≡ false → P b)
    → P (elim test [ true ↦ a | false ↦ b ])
elim_of P true a b f g = f refl
elim_of P false a b f g = g refl

-- Of both branches on an option.
pub option_of {ℓ ℓ' ℓ''} :
    {A : Type ℓ} {B : Type ℓ'} (P : B → Type ℓ'') (x : Option A) (a : B) (f : A → B)
    → P a
    → ((y : A) → P (f y))
    → P (elim x [ none ↦ a | some y ↦ f y ])
option_of P none a f h g = h
option_of P (some y) a f h g = g y

-- The same with what is known in each.
pub option_cases {ℓ ℓ' ℓ''} :
    {A : Type ℓ} {B : Type ℓ'} (P : B → Type ℓ'') (x : Option A) (a : B) (f : A → B)
    → (x ≡ none → P a)
    → ((y : A) → x ≡ some y → P (f y))
    → P (elim x [ none ↦ a | some y ↦ f y ])
option_cases P none a f h g = h refl
option_cases P (some y) a f h g = g y refl

pub ltb→lt : (a b : ℕ) → ltb a b ≡ true → a < b
ltb→lt a b h = ground arith

pub lt→ltb : (a b : ℕ) → a < b → ltb a b ≡ true
lt→ltb a b h = ground arith

pub leb→le : (a b : ℕ) → leb a b ≡ true → a ≤ b
leb→le a b h = ground arith

pub le→leb : (a b : ℕ) → a ≤ b → leb a b ≡ true
le→leb a b h = ground arith

pub lt→leb_false : (a b : ℕ) → b < a → leb a b ≡ false
lt→leb_false a b h = ground arith

pub le→ltb_false : (a b : ℕ) → b ≤ a → ltb a b ≡ false
le→ltb_false a b h = ground arith

pub ltb_false→le : (a b : ℕ) → ltb a b ≡ false → b ≤ a
ltb_false→le a b h = ground arith

pub leb_false→lt : (a b : ℕ) → leb a b ≡ false → b < a
leb_false→lt a b h = ground arith

pub ==_iff : (a b : ℕ) → ((a == b) ≡ true) ↔ (a ≡ b)
==_iff a b = ground arith

pub ruleset tests = (arith, ltb→lt, lt→ltb, leb→le, le→leb)

-- To split on a computed value and keep the equation.
pub Bool-cases : (b : Bool) → (b ≡ true) ⊎ (b ≡ false)
Bool-cases true = inl refl
Bool-cases false = inr refl

pub Option-cases {ℓ} : {A : Type ℓ} (o : Option A) → (o ≡ none) ⊎ ((a : A) × (o ≡ some a))
Option-cases none = inl refl
Option-cases (some a) = inr (a, refl)
