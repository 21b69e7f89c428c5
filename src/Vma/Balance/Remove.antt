-- ===== src/Vma/Balance/Remove.antt =====
-- `node_remove` (kernel/kernel/vma.c) keeps the trees balanced, and does not fault.
use dfos.Base.{
  ℕ, ◌+◌, ◌≤◌, ◌<◌, Bool, true, false, ◌≡◌, refl, arith, Bool-cases, inl, inr, ltb, leb, leb→le,
  leb_false→lt, ◌==◌, some, Returns, Returns-bind, Returns-mono, Returns-map,
}
use dfos.Base.Int.{ℤ}
use dfos.Vma.Node.{
  Region, Tree, null, node, NodePool, is_null, node_leftmost, rebalance, rebalance_after,
  node_remove, remove_root,
}
use dfos.Vma.Balance.{depth, Balanced, Rebalanced}
use dfos.Vma.Balance.Insert.{rebalance-Rebalanced}

-- What `node_remove` makes of a balanced tree.
abbrev pub Shrunk : Tree → Tree × Bool × NodePool → Type 0
Shrunk t (t', removed, pool) = Balanced t' × (depth t' ≤ depth t) × (depth t ≤ depth t' + 1)

shrink_left :
    (x y : Region) (h : ℤ) (l r l' : Tree) (removed : Bool) (pool p : NodePool)
    → Balanced (node y h l r)
    → depth (node y h l r) < 124
    → Shrunk l (l', removed, pool)
    → Returns (rebalance_after (node x h l' r) (removed, p)) (Shrunk (node y h l r))
unfolding rebalance_after
shrink_left x y h l r l' removed pool pool' (_, p, q, bl, br) s (b', lo, hi) =
    Returns-map (Shrunk (node y h l r)) _ (rebalance (node x h l' r)) (
      Returns-mono (Rebalanced l' r) _ _
        (rebalance-Rebalanced x h l' r b' br (omega arith) (omega arith) (omega arith)
          (omega arith))
        (λ t (bt, u, v, w). (
          bt,
          omega arith,
          elim (Bool-cases (leb (depth r) (depth l' + 1))) [
            | inl e ↦ omega (arith, w (omega arith) (leb→le _ _ e))
            | inr e ↦ omega (arith, leb_false→lt _ _ e)
          ],
        )))

shrink_right :
    (x y : Region) (h : ℤ) (l r r' : Tree) (removed dropped : Bool) (pool p : NodePool)
    → Balanced (node y h l r)
    → depth (node y h l r) < 124
    → Shrunk r (r', dropped, pool)
    → Returns (rebalance_after (node x h l r') (removed, p)) (Shrunk (node y h l r))
unfolding rebalance_after
shrink_right x y h l r r' removed dropped pool pool' (_, p, q, bl, br) s (b', lo, hi) =
    Returns-map (Shrunk (node y h l r)) _ (rebalance (node x h l r')) (
      Returns-mono (Rebalanced l r') _ _
        (rebalance-Rebalanced x h l r' bl b' (omega arith) (omega arith) (omega arith)
          (omega arith))
        (λ t (bt, u, v, w). (
          bt,
          omega arith,
          elim (Bool-cases (leb (depth l) (depth r' + 1))) [
            | inl e ↦ omega (arith, w (leb→le _ _ e) (omega arith))
            | inr e ↦ omega (arith, leb_false→lt _ _ e)
          ],
        )))

node_leftmost_total : (t : Tree) → is_null t ≡ false → (x : Region) × (node_leftmost t ≡ some x)
unfolding node_leftmost
node_leftmost_total null e = cc
node_leftmost_total (node x h null r) e = (x, refl)
node_leftmost_total (node x h (node y k a b) r) e = node_leftmost_total (node y k a b) refl

remove_root-Balanced :
    (y : Region) (h : ℤ) (l r : Tree) (pool : NodePool)
    → Balanced (node y h l r)
    → depth (node y h l r) < 124
    → ((start end : ℕ) → Returns (node_remove r start end pool) (Shrunk r))
    → Returns
        (remove_root h l r pool (λ x. node_remove r x.start x.end pool))
        (Shrunk (node y h l r))
unfolding remove_root
remove_root-Balanced y h null r pool b s rest = (b.4, omega arith, omega arith)
remove_root-Balanced y h (node z k c d) null pool b s rest = (b.3, omega arith, omega arith)
remove_root-Balanced y h (node z k c d) (node w j a f) pool b s rest =
    let l = node z k c d in
    let r = node w j a f in
    let (x, e) = node_leftmost_total r refl in
    rw (e, Returns)
      (Returns-bind (Shrunk r) (Shrunk (node y h l r)) (node_remove r x.start x.end pool) _
        (rest x.start x.end)
        (λ (r', dropped, p) _ g. shrink_right x y h l r r' true dropped p p b s g))

-- Removal from a balanced tree does not fault, keeps the balance, and takes off one level at most.
pub node_remove-Balanced :
    (t : Tree) (start end : ℕ) (pool : NodePool)
    → Balanced t
    → depth t < 124
    → Returns (node_remove t start end pool) (Shrunk t)
unfolding node_remove
node_remove-Balanced null start end pool b s = (tt, omega arith, omega arith)
node_remove-Balanced (node y h l r) start end pool b s = elim (Bool-cases (ltb start y.start)) [
  | inl e ↦
      rw (e, Returns)
        (Returns-bind (Shrunk l) (Shrunk (node y h l r)) (node_remove l start end pool) _
          (node_remove-Balanced l start end pool b.3 (omega arith))
          (λ (l', i, p) _ g. shrink_left y y h l r l' i p p b s g))
  | inr e ↦ elim (Bool-cases (ltb y.start start)) [
    | inl f ↦
        rw (e, f, Returns)
          (Returns-bind (Shrunk r) (Shrunk (node y h l r)) (node_remove r start end pool) _
            (node_remove-Balanced r start end pool b.4 (omega arith))
            (λ (r', i, p) _ g. shrink_right y y h l r r' i i p p b s g))
    | inr f ↦ elim (Bool-cases (y.end == end)) [
      | inl g ↦
          rw (e, f, g, Returns)
            (remove_root-Balanced y h l r pool b s
              (λ a c. node_remove-Balanced r a c pool b.4 (omega arith)))
      | inr g ↦ rw (e, f, g, Returns) (b, omega arith, omega arith)
    ]
  ]
]
