-- ===== src/Vma/InOrder.antt =====
-- The regions of a tree of kernel/kernel/vma.c from left to right. Rotations keep them.
use mathlib.Core.List.{append_assoc}
use dfos.Base.{
  Bool, true, false, ◌≡◌, ap, ◌∙◌, List, [], ◌∷◌, ◌++◌, some, arith, Option-cases, >>=-eq-some, inl,
  inr,
}
use dfos.Base.Int.{ℤ, pos, ltb_ℤ}
use dfos.Vma.Node.{
  Region, Tree, null, node, node_balance_factor, node_refresh_height, refreshed_height,
  rotate_right, rotate_left, rotate_left_if, rotate_right_if, rebalance, lower_left, lower_right,
  rebalance_if, rebalance_after, NodePool,
}

abbrev pub to_list : Tree → List Region
to_list null = []
to_list (node x h l r) = to_list l ++ (x ∷ to_list r)

pub rotate_right-to_list : (t t' : Tree) → rotate_right t ≡ some t' → to_list t' ≡ to_list t
unfolding rotate_right node_refresh_height
rotate_right-to_list (node x h (node y k a b) c) t' e =
    ground (arith, append_assoc (to_list a) (y ∷ to_list b) (x ∷ to_list c))
rotate_right-to_list (node x h null c) t' e = cc
rotate_right-to_list null t' e = cc

pub rotate_left-to_list : (t t' : Tree) → rotate_left t ≡ some t' → to_list t' ≡ to_list t
unfolding rotate_left node_refresh_height
rotate_left-to_list (node x h a (node y k b c)) t' e =
    ground (arith, append_assoc (to_list a) (x ∷ to_list b) (y ∷ to_list c))
rotate_left-to_list (node x h a null) t' e = cc
rotate_left-to_list null t' e = cc

rotate_left_if-to_list :
    (b : Bool) (t t' : Tree) → rotate_left_if b t ≡ some t' → to_list t' ≡ to_list t
rotate_left_if-to_list true t t' e = rotate_left-to_list t t' e
rotate_left_if-to_list false t t' e = cc

rotate_right_if-to_list :
    (b : Bool) (t t' : Tree) → rotate_right_if b t ≡ some t' → to_list t' ≡ to_list t
rotate_right_if-to_list true t t' e = rotate_right-to_list t t' e
rotate_right_if-to_list false t t' e = cc

lower_left-to_list :
    (x : Region) (h : ℤ) (l r t' : Tree)
    → lower_left x h l r ≡ some t'
    → to_list t' ≡ to_list (node x h l r)
unfolding lower_left
lower_left-to_list x h l r t' e =
    let (b, _, e1) = >>=-eq-some (node_balance_factor l) _ e in
    let (l', el, e2) = >>=-eq-some (rotate_left_if (ltb_ℤ b (pos 0)) l) _ e1 in
    rotate_right-to_list (node x h l' r) t' e2
    ∙ ap (λ xs. xs ++ (x ∷ to_list r)) (rotate_left_if-to_list _ l l' el)

lower_right-to_list :
    (x : Region) (h : ℤ) (l r t' : Tree)
    → lower_right x h l r ≡ some t'
    → to_list t' ≡ to_list (node x h l r)
unfolding lower_right
lower_right-to_list x h l r t' e =
    let (b, _, e1) = >>=-eq-some (node_balance_factor r) _ e in
    let (r', er, e2) = >>=-eq-some (rotate_right_if (ltb_ℤ (pos 0) b) r) _ e1 in
    rotate_left-to_list (node x h l r') t' e2
    ∙ ap (λ xs. to_list l ++ (x ∷ xs)) (rotate_right_if-to_list _ r r' er)

pub rebalance-to_list : (t t' : Tree) → rebalance t ≡ some t' → to_list t' ≡ to_list t
unfolding rebalance
rebalance-to_list null t' e = cc
rebalance-to_list (node x h l r) t' e = grind (
  arith,
  lower_left-to_list x (refreshed_height l r) l r t',
  lower_right-to_list x (refreshed_height l r) l r t',
)

pub rebalance_if-to_list :
    (b c : Bool) (t t' : Tree)
    → rebalance_if b t ≡ some (t', c)
    → (c ≡ b) × (to_list t' ≡ to_list t)
unfolding rebalance_if
rebalance_if-to_list true c t t' e = elim (Option-cases (rebalance t)) [
  | inl fault ↦ absurd (ground arith)
  | inr (t1, eq) ↦ ground (arith, rebalance-to_list t t1 eq)
]
rebalance_if-to_list false c t t' e = (cc, cc)

pub rebalance_after-to_list :
    (b c : Bool) (p q : NodePool) (t t' : Tree)
    → rebalance_after t (b, p) ≡ some (t', c, q)
    → (c ≡ b) × (q ≡ p) × (to_list t' ≡ to_list t)
unfolding rebalance_after
rebalance_after-to_list b c p q t t' e = elim (Option-cases (rebalance t)) [
  | inl fault ↦ absurd (ground arith)
  | inr (t1, eq) ↦ ground (arith, rebalance-to_list t t1 eq)
]
