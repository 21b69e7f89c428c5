-- ===== src/Vma/Height.antt =====
-- How high a balanced tree of kernel/kernel/vma.c can be: with the 2048 nodes of the pool, 15 levels.
-- So the `int8_t` heights never wrap.
use dfos.Base.{
  ℕ, zero, suc, ◌+◌, ◌≤◌, max, ◌≡◌, refl, ◌∷◌, arith, length, length-append, Bool-cases, leb,
  leb→le, leb_false→lt, inl, inr,
}
use dfos.Vma.Node.{Tree, null, node}
use dfos.Vma.InOrder.{to_list}
use dfos.Vma.Balance.{depth, Balanced}

-- The fewest nodes of a balanced tree of this depth.
abbrev min_size : ℕ → ℕ
min_size zero = 0
min_size (suc zero) = 1
min_size (suc (suc n)) = 1 + min_size (suc n) + min_size n

min_size_step : (n : ℕ) → min_size n ≤ min_size (suc n)
min_size_step zero = omega arith
min_size_step (suc n) = omega arith

min_size_mono : (n m : ℕ) → n ≤ m → min_size n ≤ min_size m
min_size_mono zero zero h = omega arith
min_size_mono (suc n) zero h = absurd (omega arith)
min_size_mono n (suc m) h = elim (Bool-cases (leb n m)) [
  | inl e ↦ omega (arith, min_size_mono n m (leb→le _ _ e), min_size_step m)
  | inr e ↦ let same : n ≡ suc m = omega (arith, leb_false→lt _ _ e) in rw same (omega arith)
]

min_size_node :
    (a b d : ℕ) → d ≡ 1 + max a b → a ≤ b + 1 → b ≤ a + 1 → min_size d ≤ 1 + min_size a + min_size b
min_size_node a b zero e p q = absurd (omega arith)
min_size_node a b (suc zero) e p q = omega arith
min_size_node a b (suc (suc n)) e p q = elim (Bool-cases (leb (suc n) a)) [
  | inl deep ↦ omega (
    arith,
    min_size_mono (suc n) a (leb→le _ _ deep),
    min_size_mono n b (omega (arith, leb→le _ _ deep)),
  )
  | inr shallow ↦ omega (
    arith,
    min_size_mono (suc n) b (omega (arith, leb_false→lt _ _ shallow)),
    min_size_mono n a (omega (arith, leb_false→lt _ _ shallow)),
  )
]

min_size-le-length : (t : Tree) → Balanced t → min_size (depth t) ≤ length (to_list t)
min_size-le-length null b = omega arith
min_size-le-length (node x h l r) (_, p, q, bl, br) = omega (
  arith,
  min_size_node (depth l) (depth r) (1 + max (depth l) (depth r)) refl p q,
  min_size-le-length l bl,
  min_size-le-length r br,
  length-append (to_list l) (x ∷ to_list r),
)

-- A balanced tree of at most 2048 nodes has at most 15 levels.
pub depth-le_fifteen : (t : Tree) → Balanced t → length (to_list t) ≤ 2048 → depth t ≤ 15
depth-le_fifteen t b h = elim (Bool-cases (leb (depth t) 15)) [
  | inl e ↦ leb→le _ _ e
  | inr e ↦
      absurd
        (omega (arith, min_size-le-length t b, min_size_mono 16 (depth t) (leb_false→lt _ _ e)))
]
