-- ===== src/Base/Bits.antt =====
-- Facts about `&` at variables, for alignment masks.
use Prim.Native.Nat.{ℕ, zero, suc, ◌+◌, ◌-◌, ◌*◌, ◌/◌, ◌%◌, ◌^◌, ◌≤◌, ◌<◌, min, bit_and}
use Prim.Native.Nat.{digits, bit_and-bitwise}
use mathlib.Core.Path.{◌≡◌, refl, ap, ◌∙◌}
use native.Mathlib.Omega.{arith}
use native.Mathlib.Nat.{pow-suc, suc-add}
use native.Mathlib.Decide.{ℕ_discrete}

-- `&` by its binary digits, with a bound on their number.
abbrev masked : ℕ → ℕ → ℕ → ℕ
masked = digits (λ _. 0) min

-- Once all digits of `a` are read, one more round changes nothing.
masked_stable : (a b rounds : ℕ) → a ≤ rounds → masked (suc rounds) a b ≡ masked rounds a b
masked_stable zero b zero h = refl
masked_stable zero b (suc rounds) h = refl
masked_stable (suc a) b zero h = absurd (omega arith)
masked_stable (suc a) b (suc rounds) h =
    let next = masked_stable (suc a / 2) (b / 2) rounds (omega arith) in omega (arith, next)

masked_enough : (spare a b : ℕ) → masked (spare + a) a b ≡ masked a a b
masked_enough zero a b = ap (λ n. masked n a b) (omega arith)
masked_enough (suc spare) a b =
    ap (λ n. masked n a b) (suc-add spare a)
    ∙ masked_stable a b (spare + a) (omega arith)
    ∙ masked_enough spare a b

-- The lowest digit of `a & b`, and the others.
pub bit_and_digits : (x y : ℕ) → bit_and x y ≡ min (x % 2) (y % 2) + 2 * bit_and (x / 2) (y / 2)
bit_and_digits zero b = omega (arith, bit_and-bitwise 0 b, bit_and-bitwise 0 (b / 2))
bit_and_digits (suc a) b =
    let half = suc a / 2 in
    let rounds : masked a half (b / 2) ≡ masked half half (b / 2) =
      ap (λ n. masked n half (b / 2)) {x = a} {y = a - half + half} (omega arith)
      ∙ masked_enough (a - half) half (b / 2) in
    omega (arith, bit_and-bitwise (suc a) b, bit_and-bitwise half (b / 2))

-- Every digit in common: the number itself.
bit_and_same : (bound a : ℕ) → a ≤ bound → bit_and a a ≡ a
bit_and_same zero a h = let none_left : a ≡ 0 = omega arith in rw none_left (bit_and-bitwise 0 0)
bit_and_same (suc bound) a h = elim (ℕ_discrete a 0) [
  | yes e ↦ rw e (bit_and-bitwise 0 0)
  | no e ↦ omega (arith, bit_and_digits a a, bit_and_same bound (a / 2) (omega arith))
]

pub pow_two-suc : (w : ℕ) → 2 ^ suc w ≡ 2 * 2 ^ w
pow_two-suc w = omega (arith, pow-suc 2 w)

pub pow_two-pos : (w : ℕ) → 0 < 2 ^ w
pow_two-pos zero = omega arith
pow_two-pos (suc w) = omega (arith, pow_two-suc w, pow_two-pos w)

-- A mask of `w` ones keeps a number of `w` bits.
bit_and_ones : (w a m : ℕ) → a < 2 ^ w → m + 1 ≡ 2 ^ w → bit_and a m ≡ a
bit_and_ones zero zero m h e = bit_and-bitwise 0 m
bit_and_ones zero (suc a) m h e = absurd (omega arith)
bit_and_ones (suc w) a m h e = omega (
  arith,
  pow_two-suc w,
  bit_and_digits a m,
  bit_and_ones w (a / 2) (m / 2) (omega (arith, pow_two-suc w))
      (omega (arith, pow_two-suc w, pow_two-pos w)),
)

-- `r` is the largest multiple of `k` that is at most `a`.
abbrev pub RoundsDown : ℕ → ℕ → ℕ → Type 0
RoundsDown k a r = ((q : ℕ) × (r ≡ q * k)) × (r ≤ a) × (a < r + k)

-- A mask of `w` ones above `k` zeros rounds down to a multiple of 2 ^ k.
pub bit_and_round :
    (w k a m : ℕ) → a < 2 ^ (k + w) → m + 2 ^ k ≡ 2 ^ (k + w) → RoundsDown (2 ^ k) a (bit_and a m)
bit_and_round w zero a m h e =
    let t : 2 ^ (0 + w) ≡ 2 ^ w = ap (λ n. 2 ^ n) (omega arith) in
    let r = bit_and_ones w a m (omega arith) (omega arith) in
    ((a, omega arith), omega arith, omega arith)
bit_and_round w (suc k) a m h e =
    let t : 2 ^ (suc k + w) ≡ 2 * 2 ^ (k + w) =
      ap (λ n. 2 ^ n) (suc-add k w) ∙ pow_two-suc (k + w) in
    let p = pow_two-suc k in
    let step = bit_and_digits a m in
    let half = pow_two-pos k in
    let ((q, eq), lo, hi) = bit_and_round w k (a / 2) (m / 2) (omega arith) (omega arith) in
    ((q, double q (2 ^ k) (2 ^ suc k) _ _ p eq (omega arith)), omega arith, omega arith)
  where
    double : (q k k' x y : ℕ) → k' ≡ 2 * k → x ≡ q * k → y ≡ x * 2 → y ≡ q * k'
    double q k k' x y p e f = grind arith

-- Only a power of two has no bit in common with its predecessor.
pub pow_of_bit_and : (n a : ℕ) → a ≤ n → 0 < a → bit_and a (a - 1) ≡ 0 → (k : ℕ) × (a ≡ 2 ^ k)
pow_of_bit_and zero a h p e = absurd (omega arith)
pow_of_bit_and (suc n) a h p e = elim (ℕ_discrete (a % 2) 0) [
  | yes even ↦
      let step = bit_and_digits a (a - 1) in
      let half : (a - 1) / 2 ≡ a / 2 - 1 = omega arith in
      let rest : bit_and (a / 2) (a / 2 - 1) ≡ 0 = rw (← half) (omega arith) in
      let (k, eq) = pow_of_bit_and n (a / 2) (omega arith) (omega arith) rest in
      (suc k, omega (arith, pow_two-suc k))
  | no odd ↦
      let step = bit_and_digits a (a - 1) in
      let half : (a - 1) / 2 ≡ a / 2 = omega arith in
      let same : bit_and (a / 2) ((a - 1) / 2) ≡ a / 2 =
        rw half (bit_and_same (a / 2) (a / 2) (omega arith)) in
      (0, omega arith)
]
