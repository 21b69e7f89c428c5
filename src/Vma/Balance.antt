-- ===== src/Vma/Balance.antt =====
-- The balance of the trees of kernel/kernel/vma.c: stored heights are the real ones, and the
-- heights of two siblings differ by one at most.
pub mod Left
pub mod Right
pub mod Insert
pub mod Remove
use dfos.Base.{
  ℕ, zero, suc, ◌+◌, ◌-◌, ◌*◌, ◌^◌, ◌≤◌, ◌<◌, max, Bool, true, false, ◌≡◌, refl, sym, ap, ◌∙◌,
  Option, none, some, arith, Bool-cases, Option-cases, inl, inr, ltb, ltb→lt, ltb_false→le,
  le→ltb_false, Returns, Returns-bind, if◌then◌else◌,
}
use dfos.Base.Int.{
  ℤ, pos, negsuc, ◌-ℤ◌, ◌+ℤ◌, ltb_ℤ, int8, int8-pos, pos-+ℤ, ltb_ℤ_difference, difference-ltb_ℤ,
  difference-ltb_ℤ_zero,
}
use dfos.Vma.Node.{
  Region, Tree, null, node, node_balance_factor, node_height, node_refresh_height, max_i32,
  refreshed_height, rotate_right, rotate_left, rotate_left_if, rotate_right_if, rebalance,
  lower_left, lower_right,
}

abbrev pub depth : Tree → ℕ
depth null = 0
depth (node x h l r) = 1 + max (depth l) (depth r)

abbrev pub Balanced : Tree → Type 0
Balanced null = Unit
Balanced (node x h l r) =
    (h ≡ pos (1 + max (depth l) (depth r)))
    × (depth l ≤ depth r + 1)
    × (depth r ≤ depth l + 1)
    × Balanced l
    × Balanced r

pub node_height-Balanced : (t : Tree) → Balanced t → node_height t ≡ pos (depth t)
unfolding node_height
node_height-Balanced null b = refl
node_height-Balanced (node x h l r) b = b.0

max_i32-pos : (a b : ℕ) → max_i32 (pos a) (pos b) ≡ pos (max a b)
unfolding max_i32 ltb_ℤ
max_i32-pos a b = ground arith

-- The height that the code computes is the real one, up to the limit of `int8_t`.
pub refreshed_height-Balanced :
    (l r : Tree)
    → Balanced l
    → Balanced r
    → depth l < 127
    → depth r < 127
    → refreshed_height l r ≡ pos (1 + max (depth l) (depth r))
unfolding refreshed_height
refreshed_height-Balanced l r bl br hl hr =
    rw
      (
        node_height-Balanced l bl,
        node_height-Balanced r br,
        max_i32-pos (depth l) (depth r),
        pos-+ℤ 1 (max (depth l) (depth r)),
      )
      (int8-pos (1 + max (depth l) (depth r)) (omega arith))

-- What `rebalance` makes of a node whose children are balanced and differ by two at most.
abbrev pub Rebalanced : Tree → Tree → Tree → Type 0
Rebalanced l r t =
    Balanced t
    × (max (depth l) (depth r) ≤ depth t)
    × (depth t ≤ 1 + max (depth l) (depth r))
    × (depth l ≤ depth r + 1 → depth r ≤ depth l + 1 → depth t ≡ 1 + max (depth l) (depth r))

pub depth-node_refresh_height :
    (x : Region) (l r : Tree) → depth (node_refresh_height x l r) ≡ 1 + max (depth l) (depth r)
unfolding node_refresh_height
depth-node_refresh_height x l r = refl

pub node_refresh_height-Balanced :
    (x : Region) (l r : Tree)
    → Balanced l
    → Balanced r
    → depth l < 127
    → depth r < 127
    → depth l ≤ depth r + 1
    → depth r ≤ depth l + 1
    → Balanced (node_refresh_height x l r)
unfolding node_refresh_height
node_refresh_height-Balanced x l r bl br hl hr p q =
    (refreshed_height-Balanced l r bl br hl hr, p, q, bl, br)

pub balance-ltb_zero :
    (a b : Tree)
    → Balanced a
    → Balanced b
    → ltb_ℤ (node_height a -ℤ node_height b) (pos 0) ≡ ltb (depth a) (depth b)
balance-ltb_zero a b ba bb =
    rw (node_height-Balanced a ba, node_height-Balanced b bb)
      (difference-ltb_ℤ_zero (depth a) (depth b))

pub zero-ltb_balance :
    (a b : Tree)
    → Balanced a
    → Balanced b
    → ltb_ℤ (pos 0) (node_height a -ℤ node_height b) ≡ ltb (depth b + 0) (depth a)
zero-ltb_balance a b ba bb =
    rw (node_height-Balanced a ba, node_height-Balanced b bb)
      (ltb_ℤ_difference (depth a) (depth b) 0)

pub one-ltb_balance :
    (a b : Tree)
    → Balanced a
    → Balanced b
    → ltb_ℤ (pos 1) (node_height a -ℤ node_height b) ≡ ltb (depth b + 1) (depth a)
one-ltb_balance a b ba bb =
    rw (node_height-Balanced a ba, node_height-Balanced b bb)
      (ltb_ℤ_difference (depth a) (depth b) 1)

pub balance-ltb_negsuc :
    (a b : Tree)
    → Balanced a
    → Balanced b
    → ltb_ℤ (node_height a -ℤ node_height b) (negsuc 0) ≡ ltb (depth a + 1) (depth b)
balance-ltb_negsuc a b ba bb =
    rw (node_height-Balanced a ba, node_height-Balanced b bb)
      (difference-ltb_ℤ (depth a) (depth b) 0)
