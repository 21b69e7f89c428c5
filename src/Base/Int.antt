-- ===== src/Base/Int.antt =====
-- Signed integers, for the `int` and `int8_t` values of the C code.
use Prim.Native.Nat.{ℕ, suc, ◌+◌, ◌-◌, ◌%◌, ◌<◌}
use mathlib.Core.Path.{◌≡◌}
use mathlib.Core.Bool.{Bool}
use native.Mathlib.Omega.{arith}
use dfos.Base.Tests.{ltb, leb, if◌then◌else◌}

-- `negsuc n` is -(n + 1).
pub data ℤ : Type 0 where
  pos : ℕ → ℤ
  negsuc : ℕ → ℤ

abbrev pub pos_part : ℤ → ℕ
pos_part (pos n) = n
pos_part (negsuc n) = 0

abbrev pub neg_part : ℤ → ℕ
neg_part (pos n) = 0
neg_part (negsuc n) = suc n

-- a - b, as an integer.
abbrev pub sub_ℕ : ℕ → ℕ → ℤ
sub_ℕ a b = if leb b a then pos (a - b) else negsuc (b - a - 1)

infixl 65 ◌-ℤ◌ ◌+ℤ◌
unfoldable pub ◌-ℤ◌ : ℤ → ℤ → ℤ
a -ℤ b = sub_ℕ (pos_part a + neg_part b) (neg_part a + pos_part b)

unfoldable pub ◌+ℤ◌ : ℤ → ℤ → ℤ
a +ℤ b = sub_ℕ (pos_part a + pos_part b) (neg_part a + neg_part b)

unfoldable pub ltb_ℤ : ℤ → ℤ → Bool
ltb_ℤ a b = ltb (pos_part a + neg_part b) (pos_part b + neg_part a)

-- The value of an `int8_t` whose bit pattern is `n`.
abbrev pub signed8 : ℕ → ℤ
signed8 n = if ltb n 128 then pos n else negsuc (255 - n)

-- The cast `(int8_t) v`.
unfoldable pub int8 : ℤ → ℤ
int8 (pos n) = signed8 (n % 256)
int8 (negsuc n) = signed8 (255 - n % 256)

pub int8-pos : (n : ℕ) → n < 128 → int8 (pos n) ≡ pos n
unfolding int8
int8-pos n h = ground arith

pub pos-+ℤ : (a b : ℕ) → pos a +ℤ pos b ≡ pos (a + b)
unfolding ◌+ℤ◌
pos-+ℤ a b = ground arith

-- Comparing a difference of two sizes with a small number needs no sign.
pub ltb_ℤ_difference : (a b k : ℕ) → ltb_ℤ (pos k) (pos a -ℤ pos b) ≡ ltb (b + k) a
unfolding ltb_ℤ ◌-ℤ◌
ltb_ℤ_difference a b k = ground arith

pub difference-ltb_ℤ : (a b k : ℕ) → ltb_ℤ (pos a -ℤ pos b) (negsuc k) ≡ ltb (a + suc k) b
unfolding ltb_ℤ ◌-ℤ◌
difference-ltb_ℤ a b k = ground arith

pub difference-ltb_ℤ_zero : (a b : ℕ) → ltb_ℤ (pos a -ℤ pos b) (pos 0) ≡ ltb a b
unfolding ltb_ℤ ◌-ℤ◌
difference-ltb_ℤ_zero a b = ground arith
