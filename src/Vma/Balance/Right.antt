-- ===== src/Vma/Balance/Right.antt =====
-- The branch of `rebalance` (kernel/kernel/vma.c) for a deep right child: one rotation or two.
use dfos.Base.{
  ◌+◌, ◌≤◌, ◌<◌, ◌≡◌, arith, Bool-cases, inl, inr, ltb, ltb→lt, ltb_false→le, le→ltb_false, Returns,
}
use dfos.Base.Int.{ℤ}
use dfos.Vma.Node.{
  Region, Tree, null, node, node_balance_factor, node_refresh_height, rotate_right, rotate_left,
  lower_right,
}
use dfos.Vma.Balance.{
  depth, Balanced, Rebalanced, depth-node_refresh_height, node_refresh_height-Balanced,
  zero-ltb_balance,
}

-- A single rotation: the outer grandchild is the deep one.
rotate_left-Balanced :
    (x y : Region) (h k : ℤ) (l b a : Tree)
    → Balanced (node y k b a)
    → Balanced l
    → depth (node y k b a) ≡ depth l + 2
    → depth l < 124
    → depth b ≤ depth a
    → Returns (rotate_left (node x h l (node y k b a))) (Rebalanced l (node y k b a))
unfolding rotate_left
rotate_left-Balanced x y h k l b a (_, p, q, bb, ba) bl d s c =
    let inner =
      node_refresh_height-Balanced x l b bl bb (omega arith) (omega arith) (omega arith)
        (omega arith) in
    let e1 = depth-node_refresh_height x l b in
    let e2 = depth-node_refresh_height y (node_refresh_height x l b) a in
    (
      node_refresh_height-Balanced y (node_refresh_height x l b) a inner ba (omega arith)
          (omega arith) (omega arith) (omega arith),
      omega arith,
      omega arith,
      λ u v. omega arith,
    )

-- A double rotation: the inner grandchild is the deep one.
rotate_twice-Balanced :
    (x y z : Region) (h k k' j : ℤ) (l b c a : Tree)
    → Balanced (node y k (node z j b c) a)
    → Balanced l
    → depth (node y k (node z j b c) a) ≡ depth l + 2
    → depth l < 124
    → depth a < depth (node z j b c)
    → Returns
        (rotate_left (node x h l (node z k' b (node_refresh_height y c a))))
        (Rebalanced l (node y k (node z j b c) a))
unfolding rotate_left
rotate_twice-Balanced x y z h k k' j l b c a (_, p, q, (_, p', q', bb, bc), ba) bl d s lt =
    let left =
      node_refresh_height-Balanced x l b bl bb (omega arith) (omega arith) (omega arith)
        (omega arith) in
    let right =
      node_refresh_height-Balanced y c a bc ba (omega arith) (omega arith) (omega arith)
        (omega arith) in
    let e1 = depth-node_refresh_height x l b in
    let e2 = depth-node_refresh_height y c a in
    let e3 = depth-node_refresh_height z (node_refresh_height x l b) (node_refresh_height y c a) in
    (
      node_refresh_height-Balanced z (node_refresh_height x l b) (node_refresh_height y c a) left
          right (omega arith) (omega arith) (omega arith) (omega arith),
      omega arith,
      omega arith,
      λ u v. omega arith,
    )

pub lower_right-Balanced :
    (x : Region) (h : ℤ) (l r : Tree)
    → Balanced l
    → Balanced r
    → depth r ≡ depth l + 2
    → depth l < 124
    → Returns (lower_right x h l r) (Rebalanced l r)
unfolding lower_right node_balance_factor rotate_right
lower_right-Balanced x h l null bl br d s = absurd (omega arith)
lower_right-Balanced x h l (node y k null a) bl br d s =
    rw (zero-ltb_balance null a br.3 br.4, le→ltb_false (depth a + 0) 0 (omega arith))
      (rotate_left-Balanced x y h k l null a br bl d s (omega arith))
lower_right-Balanced x h l (node y k (node z j b c) a) bl br d s =
    elim (Bool-cases (ltb (depth a + 0) (depth (node z j b c)))) [
      | inl e ↦
          rw (zero-ltb_balance (node z j b c) a br.3 br.4, e)
            (unfold node_refresh_height in
              (rotate_twice-Balanced x y z h k _ j l b c a br bl d s
                (omega (arith, ltb→lt (depth a + 0) (depth (node z j b c)) e))))
      | inr e ↦
          rw (zero-ltb_balance (node z j b c) a br.3 br.4, e)
            (rotate_left-Balanced x y h k l (node z j b c) a br bl d s
              (omega (arith, ltb_false→le (depth a + 0) (depth (node z j b c)) e)))
    ]
