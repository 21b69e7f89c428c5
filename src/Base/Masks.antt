-- ===== src/Base/Masks.antt =====
-- Bit masks: the digits of `&` and `|`, and the test of one bit.
use Prim.Native.Nat.{
  ℕ, zero, suc, ◌+◌, ◌-◌, ◌*◌, ◌/◌, ◌%◌, ◌^◌, ◌≤◌, ◌<◌, min, max, bit_and, bit_or,
}
use Prim.Native.Nat.{digits, bit_and-bitwise, bit_or-bitwise}
use mathlib.Core.Path.{◌≡◌, refl, ap, ◌∙◌, sym, subst}
use mathlib.Core.Bool.{Bool, true, false, ◌&&◌, ◌||◌, not}
use native.Mathlib.Omega.{arith}
use native.Mathlib.Nat.{suc-add}
use native.Mathlib.Decide.{ℕ_discrete}
use dfos.Base.Bits.{bit_and_digits, pow_two-suc, pow_two-pos}
use dfos.Base.Tests.{◌==◌, if◌then◌else◌}

-- `|` by its binary digits, with a bound on their number.
abbrev joined : ℕ → ℕ → ℕ → ℕ
joined = digits (λ b. b) max

-- The first number has no digit left: only the second's remain.
joined_none : (b rounds : ℕ) → joined rounds 0 b ≡ b
joined_none b zero = refl
joined_none b (suc rounds) = refl

joined_more : (a b rounds : ℕ) → a ≤ rounds → joined (suc rounds) a b ≡ joined rounds a b
joined_more zero b rounds h = sym (joined_none b rounds)
joined_more (suc a) b zero h = absurd (omega arith)
joined_more (suc a) b (suc rounds) h =
    let shorter = joined_more (suc a / 2) (b / 2) rounds (omega arith) in omega (arith, shorter)

joined_enough : (spare a b : ℕ) → joined (spare + a) a b ≡ joined a a b
joined_enough zero a b = ap (λ n. joined n a b) (omega arith)
joined_enough (suc spare) a b =
    ap (λ n. joined n a b) (suc-add spare a)
    ∙ joined_more a b (spare + a) (omega arith)
    ∙ joined_enough spare a b

-- The lowest digit of `a | b`, and the others.
pub bit_or_digits : (x y : ℕ) → bit_or x y ≡ max (x % 2) (y % 2) + 2 * bit_or (x / 2) (y / 2)
bit_or_digits zero b = omega (arith, bit_or-bitwise 0 b, bit_or-bitwise 0 (b / 2))
bit_or_digits (suc a) b =
    let half = suc a / 2 in
    let rounds : joined a half (b / 2) ≡ joined half half (b / 2) =
      ap (λ n. joined n half (b / 2)) {x = a} {y = a - half + half} (omega arith)
      ∙ joined_enough (a - half) half (b / 2) in
    omega (arith, bit_or-bitwise (suc a) b, bit_or-bitwise half (b / 2))

-- Digit `i` of a number.
unfoldable pub bit_at : ℕ → ℕ → ℕ
bit_at x zero = x % 2
bit_at x (suc i) = bit_at (x / 2) i

bit_at_lt : (x i : ℕ) → bit_at x i < 2
unfolding bit_at
bit_at_lt x zero = omega arith
bit_at_lt x (suc i) = bit_at_lt (x / 2) i

bit_at-bit_and : (x y i : ℕ) → bit_at (bit_and x y) i ≡ min (bit_at x i) (bit_at y i)
unfolding bit_at
bit_at-bit_and x y zero = omega (arith, bit_and_digits x y)
bit_at-bit_and x y (suc i) =
    let rest : bit_and x y / 2 ≡ bit_and (x / 2) (y / 2) = omega (arith, bit_and_digits x y) in
    ap (λ z. bit_at z i) rest ∙ bit_at-bit_and (x / 2) (y / 2) i

bit_at-bit_or : (x y i : ℕ) → bit_at (bit_or x y) i ≡ max (bit_at x i) (bit_at y i)
unfolding bit_at
bit_at-bit_or x y zero = omega (arith, bit_or_digits x y)
bit_at-bit_or x y (suc i) =
    let rest : bit_or x y / 2 ≡ bit_or (x / 2) (y / 2) = omega (arith, bit_or_digits x y) in
    ap (λ z. bit_at z i) rest ∙ bit_at-bit_or (x / 2) (y / 2) i

bit_at_zero : (i : ℕ) → bit_at 0 i ≡ 0
unfolding bit_at
bit_at_zero zero = refl
bit_at_zero (suc i) = bit_at_zero i

bit_at-pow : (k i : ℕ) → bit_at (2 ^ k) i ≡ (if k == i then 1 else 0)
unfolding bit_at
bit_at-pow zero zero = refl
bit_at-pow zero (suc i) = bit_at_zero i ∙ ground arith
bit_at-pow (suc k) zero = ground (arith, pow_two-suc k)
bit_at-pow (suc k) (suc i) =
    let half : 2 ^ suc k / 2 ≡ 2 ^ k = omega (arith, pow_two-suc k) in
    ap (λ z. bit_at z i) half ∙ bit_at-pow k i ∙ ground arith

none_common : (bound x : ℕ) → x ≤ bound → bit_and x 0 ≡ 0
none_common zero x h = let none_left : x ≡ 0 = omega arith in rw none_left (bit_and-bitwise 0 0)
none_common (suc bound) x h = elim (ℕ_discrete x 0) [
  | yes e ↦ rw e (bit_and-bitwise 0 0)
  | no e ↦ omega (arith, bit_and_digits x 0, none_common bound (x / 2) (omega arith))
]

bit_and_zero : (x : ℕ) → bit_and x 0 ≡ 0
bit_and_zero x = none_common x x (omega arith)

-- A mask of one bit picks that digit.
bit_and_pow : (x k : ℕ) → bit_and x (2 ^ k) ≡ bit_at x k * 2 ^ k
unfolding bit_at
bit_and_pow x zero = omega (arith, bit_and_digits x 1, bit_and_zero (x / 2))
bit_and_pow x (suc k) =
    let half : 2 ^ suc k / 2 ≡ 2 ^ k = omega (arith, pow_two-suc k) in
    let rest : bit_and x (2 ^ suc k) ≡ 2 * bit_and (x / 2) (2 ^ k) =
      subst (λ h. bit_and x (2 ^ suc k) ≡ 2 * bit_and (x / 2) h) half
        (omega (arith, bit_and_digits x (2 ^ suc k), pow_two-suc k)) in
    scaled (bit_at (x / 2) k) (2 ^ k) (2 ^ suc k) _ _ (pow_two-suc k) (bit_and_pow (x / 2) k) rest
  where
    scaled : (d p p' u v : ℕ) → p' ≡ 2 * p → u ≡ d * p → v ≡ 2 * u → v ≡ d * p'
    scaled d p p' u v e f g = grind arith

-- `(mask & (1u << bit)) != 0`
abbrev pub has_bit : ℕ → ℕ → Bool
has_bit mask bit = not (bit_and mask (2 ^ bit) == 0)

some_digit : (bound x : ℕ) → x ≤ bound → 0 < x → (i : ℕ) × (bit_at x i ≡ 1)
unfolding bit_at
some_digit zero x h p = absurd (omega arith)
some_digit (suc bound) x h p = elim (ℕ_discrete (x % 2) 1) [
  | yes e ↦ (0, e)
  | no e ↦ let (i, f) = some_digit bound (x / 2) (omega arith) (omega arith) in (suc i, f)
]

has_bit-bit_at : (mask bit : ℕ) → has_bit mask bit ≡ (bit_at mask bit == 1)
has_bit-bit_at mask bit =
    one_digit (bit_at mask bit) (2 ^ bit) (bit_and mask (2 ^ bit)) (bit_at_lt mask bit)
      (pow_two-pos bit) (bit_and_pow mask bit)
  where
    one_digit : (d p u : ℕ) → d < 2 → 0 < p → u ≡ d * p → not (u == 0) ≡ (d == 1)
    one_digit zero p u h q e = ground arith
    one_digit (suc zero) p u h q e = ground arith
    one_digit (suc (suc d)) p u h q e = absurd (omega arith)

pub has_bit-bit_and : (a b bit : ℕ) → has_bit (bit_and a b) bit ≡ (has_bit a bit && has_bit b bit)
has_bit-bit_and a b bit =
    rw
      (
        has_bit-bit_at (bit_and a b) bit,
        has_bit-bit_at a bit,
        has_bit-bit_at b bit,
        bit_at-bit_and a b bit,
      )
      (least (bit_at a bit) (bit_at b bit) (bit_at_lt a bit) (bit_at_lt b bit))
  where
    least : (d e : ℕ) → d < 2 → e < 2 → (min d e == 1) ≡ (d == 1 && e == 1)
    least d e h k = ground arith

-- `mask |= 1u << k` sets that bit alone.
pub has_bit-bit_or :
    (mask k bit : ℕ) → has_bit (bit_or mask (2 ^ k)) bit ≡ (k == bit || has_bit mask bit)
has_bit-bit_or mask k bit =
    rw
      (
        has_bit-bit_at (bit_or mask (2 ^ k)) bit,
        has_bit-bit_at mask bit,
        bit_at-bit_or mask (2 ^ k) bit,
        bit_at-pow k bit,
      )
      (either (bit_at mask bit) (k == bit) (bit_at_lt mask bit))
  where
    either : (d : ℕ) (t : Bool) → d < 2 → (max d (if t then 1 else 0) == 1) ≡ (t || d == 1)
    either d true h = ground arith
    either d false h = ground arith

pub has_bit_zero : (bit : ℕ) → has_bit 0 bit ≡ false
has_bit_zero bit = rw (has_bit-bit_at 0 bit, bit_at_zero bit) refl

-- A mask with no bit is 0.
pub has_bit_some : (mask : ℕ) → 0 < mask → (bit : ℕ) × (has_bit mask bit ≡ true)
has_bit_some mask h =
    let (bit, e) = some_digit mask mask (omega arith) h in
    (bit, rw (has_bit-bit_at mask bit, e) refl)

-- `1u << bit`
unfoldable pub shifted_one : ℕ → ℕ
shifted_one bit = 2 ^ bit % 2 ^ 32

pow_two_le : (a b : ℕ) → a ≤ b → 2 ^ a ≤ 2 ^ b
pow_two_le a zero h =
    let e : a ≡ 0 = omega arith in subst (λ w. 2 ^ w ≤ 2 ^ 0) (sym e) (omega arith)
pow_two_le a (suc b) h = elim (ℕ_discrete a (suc b)) [
  | yes e ↦ subst (λ w. 2 ^ a ≤ 2 ^ w) e (omega arith)
  | no n ↦ omega (arith, pow_two_le a b (omega (arith, n)), pow_two-suc b)
]

pub shifted_one_small : (bit : ℕ) → bit < 32 → shifted_one bit ≡ 2 ^ bit
unfolding shifted_one
shifted_one_small bit h = omega (arith, pow_two_le bit 31 (omega arith))
