-- ===== src/Vma/Balance/Left.antt =====
-- The branch of `rebalance` (kernel/kernel/vma.c) for a deep left child: one rotation or two.
use dfos.Base.{
  ◌+◌, ◌≤◌, ◌<◌, ◌≡◌, arith, Bool-cases, inl, inr, ltb, ltb→lt, ltb_false→le, le→ltb_false, Returns,
}
use dfos.Base.Int.{ℤ}
use dfos.Vma.Node.{
  Region, Tree, null, node, node_balance_factor, node_refresh_height, rotate_right, rotate_left,
  lower_left,
}
use dfos.Vma.Balance.{
  depth, Balanced, Rebalanced, depth-node_refresh_height, node_refresh_height-Balanced,
  balance-ltb_zero,
}

-- A single rotation: the outer grandchild is the deep one.
rotate_right-Balanced :
    (x y : Region) (h k : ℤ) (a b r : Tree)
    → Balanced (node y k a b)
    → Balanced r
    → depth (node y k a b) ≡ depth r + 2
    → depth r < 124
    → depth b ≤ depth a
    → Returns (rotate_right (node x h (node y k a b) r)) (Rebalanced (node y k a b) r)
unfolding rotate_right
rotate_right-Balanced x y h k a b r (_, p, q, ba, bb) br d s c =
    let inner =
      node_refresh_height-Balanced x b r bb br (omega arith) (omega arith) (omega arith)
        (omega arith) in
    let e1 = depth-node_refresh_height x b r in
    let e2 = depth-node_refresh_height y a (node_refresh_height x b r) in
    (
      node_refresh_height-Balanced y a (node_refresh_height x b r) ba inner (omega arith)
          (omega arith) (omega arith) (omega arith),
      omega arith,
      omega arith,
      λ u v. omega arith,
    )

-- A double rotation: the inner grandchild is the deep one.
rotate_twice-Balanced :
    (x y z : Region) (h k k' j : ℤ) (a b c r : Tree)
    → Balanced (node y k a (node z j b c))
    → Balanced r
    → depth (node y k a (node z j b c)) ≡ depth r + 2
    → depth r < 124
    → depth a < depth (node z j b c)
    → Returns
        (rotate_right (node x h (node z k' (node_refresh_height y a b) c) r))
        (Rebalanced (node y k a (node z j b c)) r)
unfolding rotate_right
rotate_twice-Balanced x y z h k k' j a b c r (_, p, q, ba, (_, p', q', bb, bc)) br d s lt =
    let left =
      node_refresh_height-Balanced y a b ba bb (omega arith) (omega arith) (omega arith)
        (omega arith) in
    let right =
      node_refresh_height-Balanced x c r bc br (omega arith) (omega arith) (omega arith)
        (omega arith) in
    let e1 = depth-node_refresh_height y a b in
    let e2 = depth-node_refresh_height x c r in
    let e3 = depth-node_refresh_height z (node_refresh_height y a b) (node_refresh_height x c r) in
    (
      node_refresh_height-Balanced z (node_refresh_height y a b) (node_refresh_height x c r) left
          right (omega arith) (omega arith) (omega arith) (omega arith),
      omega arith,
      omega arith,
      λ u v. omega arith,
    )

pub lower_left-Balanced :
    (x : Region) (h : ℤ) (l r : Tree)
    → Balanced l
    → Balanced r
    → depth l ≡ depth r + 2
    → depth r < 124
    → Returns (lower_left x h l r) (Rebalanced l r)
unfolding lower_left node_balance_factor rotate_left
lower_left-Balanced x h null r bl br d s = absurd (omega arith)
lower_left-Balanced x h (node y k a null) r bl br d s =
    rw (balance-ltb_zero a null bl.3 bl.4, le→ltb_false (depth a) 0 (omega arith))
      (rotate_right-Balanced x y h k a null r bl br d s (omega arith))
lower_left-Balanced x h (node y k a (node z j b c)) r bl br d s =
    elim (Bool-cases (ltb (depth a) (depth (node z j b c)))) [
      | inl e ↦
          rw (balance-ltb_zero a (node z j b c) bl.3 bl.4, e)
            (unfold node_refresh_height in
              (rotate_twice-Balanced x y z h k _ j a b c r bl br d s (ltb→lt _ _ e)))
      | inr e ↦
          rw (balance-ltb_zero a (node z j b c) bl.3 bl.4, e)
            (rotate_right-Balanced x y h k a (node z j b c) r bl br d s (ltb_false→le _ _ e))
    ]
