-- ===== src/Vma/Align.antt =====
-- What `align_up_u32` of kernel/kernel/vma.c computes for an alignment that is a power of two.
use native.Mathlib.Nat.{div-add-mod, mul-mod_left, mul_comm, pow-le-pow_right, mul-le-mul_right}
use dfos.Base.{
  ℕ, ◌+◌, ◌-◌, ◌*◌, ◌/◌, ◌%◌, ◌^◌, ◌≤◌, ◌<◌, ◌≡◌, ◌⊎◌, inl, inr, refl, sym, ap, ◌∙◌, arith, bit_and,
  leb, ltb, Bool-cases, leb→le, leb_false→lt, ltb→lt,
}
use dfos.Base.Bits.{bit_and_round, pow_of_bit_and}
use dfos.Vma.Gap.{align_up_u32}
use dfos.Vma.Valid.{max_address}

-- `r` is the least multiple of `a` from `v` on.
abbrev pub LeastMultiple : ℕ → ℕ → ℕ → Type 0
LeastMultiple a v r = (r % a ≡ 0) × (v ≤ r) × ((s : ℕ) → s % a ≡ 0 → v ≤ s → r ≤ s)

-- There is none in 32 bits.
abbrev pub NoMultiple : ℕ → ℕ → Type 0
NoMultiple a v = (s : ℕ) → s % a ≡ 0 → v ≤ s → max_address < s

multiple-le : (p q a : ℕ) → q * a < p * a + a → q * a ≤ p * a
multiple-le p q a h = elim (Bool-cases (leb q p)) [
  | inl e ↦ mul-le-mul_right a (leb→le _ _ e)
  | inr e ↦
      absurd
        (omega (arith, mul-le-mul_right {m = p + 1} {n = q} a (omega (arith, leb_false→lt _ _ e))))
]

pow_two-le : (k n : ℕ) → 2 ^ k < 2 ^ n → k ≤ n
pow_two-le k n h = elim (Bool-cases (leb k n)) [
  | inl e ↦ leb→le _ _ e
  | inr e ↦ absurd (
      omega (
        arith,
        pow-le-pow_right {n = 2} (omega arith) {i = n} {j = k} (omega (arith, leb_false→lt _ _ e)),
      ))
]

least_multiple : (a v r q : ℕ) → 0 < a → r ≡ q * a → v ≤ r → r < v + a → LeastMultiple a v r
least_multiple a v r q p e lo hi = (
  rw e (mul-mod_left q a),
  lo,
  λ s m h.
      let split : s / a * a ≡ s = omega (arith, div-add-mod s a, mul_comm a (s / a)) in
      omega (arith, multiple-le (s / a) q a (omega arith)),
)

-- The 64-bit sum, masked, before the test for overflow.
masked-LeastMultiple :
    (v a : ℕ)
    → v ≤ max_address
    → a ≤ max_address
    → 0 < a
    → bit_and a (a - 1) ≡ 0
    → LeastMultiple a v (bit_and ((v + a - 1) % 2 ^ 64) (2 ^ 64 - 1 - (a - 1)))
masked-LeastMultiple v a hv ha p e =
    let (k, ek) = pow_of_bit_and a a (omega arith) p e in
    let small : k ≤ 32 = pow_two-le k 32 (omega arith) in
    let total : 2 ^ (k + (64 - k)) ≡ 2 ^ 64 = ap (λ n. 2 ^ n) {y = 64} (omega arith) in
    let ((q, eq), lo, hi) =
      bit_and_round (64 - k) k ((v + a - 1) % 2 ^ 64) (2 ^ 64 - 1 - (a - 1)) (omega arith)
        (omega arith) in
    least_multiple a v _ q p (eq ∙ ap (λ n. q * n) (sym ek)) (omega arith) (omega arith)

-- The result is the least multiple of the alignment from the value on, or 0 if that has more than
-- 32 bits.
pub align_up_u32-cases :
    (v a : ℕ)
    → v ≤ max_address
    → a ≤ max_address
    → 0 < a
    → bit_and a (a - 1) ≡ 0
    → LeastMultiple a v (align_up_u32 v a) ⊎ ((align_up_u32 v a ≡ 0) × NoMultiple a v)
unfolding align_up_u32
align_up_u32-cases v a hv ha p e =
    let m = masked-LeastMultiple v a hv ha p e in
    elim (Bool-cases (leb a 1)) [
      | inl one ↦ rw one (inl (omega (arith, leb→le _ _ one), omega arith, λ s _ h. h))
      | inr more ↦
          elim (Bool-cases
            (ltb 0xffff_ffff (bit_and ((v + a - 1) % 2 ^ 64) (2 ^ 64 - 1 - (a - 1))))) [
              | inl over ↦
                  rw (more, over) (inr (refl, λ s d h. omega (arith, m.2 s d h, ltb→lt _ _ over)))
              | inr fits ↦ rw (more, fits) (inl m)
            ]
    ]
