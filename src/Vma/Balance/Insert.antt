-- ===== src/Vma/Balance/Insert.antt =====
-- `rebalance` and `node_insert` (kernel/kernel/vma.c) keep the trees balanced, and do not fault.
use dfos.Base.{
  ◌+◌, ◌≤◌, ◌<◌, Bool, true, false, ◌≡◌, arith, Bool-cases, inl, inr, ltb, ltb→lt, ltb_false→le,
  Returns, Returns-bind, Returns-mono, Returns-map, leb→le, leb_false→lt, refl, leb,
}
use dfos.Base.Int.{ℤ}
use dfos.Vma.Node.{Region, Tree, null, node, rebalance, node_insert, rebalance_if}
use dfos.Vma.Balance.{
  depth, Balanced, Rebalanced, refreshed_height-Balanced, one-ltb_balance, balance-ltb_negsuc,
}
use dfos.Vma.Balance.Left.{lower_left-Balanced}
use dfos.Vma.Balance.Right.{lower_right-Balanced}

pub rebalance-Rebalanced :
    (x : Region) (h : ℤ) (l r : Tree)
    → Balanced l
    → Balanced r
    → depth l ≤ depth r + 2
    → depth r ≤ depth l + 2
    → depth l < 124
    → depth r < 124
    → Returns (rebalance (node x h l r)) (Rebalanced l r)
unfolding rebalance
rebalance-Rebalanced x h l r bl br p q sl sr = elim (Bool-cases (ltb (depth r + 1) (depth l))) [
  | inl e ↦
      rw (one-ltb_balance l r bl br, e)
        (lower_left-Balanced x _ l r bl br (omega (arith, ltb→lt (depth r + 1) (depth l) e)) sr)
  | inr e ↦ elim (Bool-cases (ltb (depth l + 1) (depth r))) [
    | inl f ↦
        rw (one-ltb_balance l r bl br, e, balance-ltb_negsuc l r bl br, f)
          (lower_right-Balanced x _ l r bl br (omega (arith, ltb→lt (depth l + 1) (depth r) f)) sl)
    | inr f ↦
        rw (one-ltb_balance l r bl br, e, balance-ltb_negsuc l r bl br, f)
          (
            (
              refreshed_height-Balanced l r bl br (omega arith) (omega arith),
              ltb_false→le _ _ e,
              ltb_false→le _ _ f,
              bl,
              br,
            ),
            omega arith,
            omega arith,
            λ _ _. omega arith,
          )
  ]
]

-- What `node_insert` makes of a balanced tree.
abbrev pub Grown : Tree → Tree × Bool → Type 0
Grown t (t', inserted) =
    Balanced t' × (depth t ≤ depth t') × (depth t' ≤ depth t + 1) × (inserted ≡ false → t' ≡ t)

grow_left :
    (y : Region) (h : ℤ) (l r l' : Tree) (inserted : Bool)
    → Balanced (node y h l r)
    → depth (node y h l r) < 124
    → Grown l (l', inserted)
    → Returns (rebalance_if inserted (node y h l' r)) (Grown (node y h l r))
unfolding rebalance_if
grow_left y h l r l' true (_, p, q, bl, br) s (b', lo, hi, _) =
    Returns-map (Grown (node y h l r)) _ (rebalance (node y h l' r)) (
      Returns-mono (Rebalanced l' r) _ _
        (rebalance-Rebalanced y h l' r b' br (omega arith) (omega arith) (omega arith)
          (omega arith))
        (λ t (bt, u, v, w). (
          bt,
          elim (Bool-cases (leb (depth l') (depth r + 1))) [
            | inl e ↦ omega (arith, w (leb→le _ _ e) (omega arith))
            | inr e ↦ omega (arith, leb_false→lt _ _ e)
          ],
          omega arith,
          λ f. cc,
        )))
grow_left y h l r l' false b s (_, _, _, same) =
    rw (same refl) (b, omega arith, omega arith, λ _. refl)

grow_right :
    (y : Region) (h : ℤ) (l r r' : Tree) (inserted : Bool)
    → Balanced (node y h l r)
    → depth (node y h l r) < 124
    → Grown r (r', inserted)
    → Returns (rebalance_if inserted (node y h l r')) (Grown (node y h l r))
unfolding rebalance_if
grow_right y h l r r' true (_, p, q, bl, br) s (b', lo, hi, _) =
    Returns-map (Grown (node y h l r)) _ (rebalance (node y h l r')) (
      Returns-mono (Rebalanced l r') _ _
        (rebalance-Rebalanced y h l r' bl b' (omega arith) (omega arith) (omega arith)
          (omega arith))
        (λ t (bt, u, v, w). (
          bt,
          elim (Bool-cases (leb (depth r') (depth l + 1))) [
            | inl e ↦ omega (arith, w (omega arith) (leb→le _ _ e))
            | inr e ↦ omega (arith, leb_false→lt _ _ e)
          ],
          omega arith,
          λ f. cc,
        )))
grow_right y h l r r' false b s (_, _, _, same) =
    rw (same refl) (b, omega arith, omega arith, λ _. refl)

-- Insertion into a balanced tree does not fault, keeps the balance, and adds one level at most.
pub node_insert-Balanced :
    (t : Tree) (x : Region) → Balanced t → depth t < 124 → Returns (node_insert t x) (Grown t)
unfolding node_insert
node_insert-Balanced null x b s =
    ((refl, omega arith, omega arith, tt, tt), omega arith, omega arith, λ f. cc)
node_insert-Balanced (node y h l r) x b s = elim (Bool-cases (leb x.end y.start)) [
  | inl e ↦
      rw (e, Returns)
        (Returns-bind (Grown l) (Grown (node y h l r)) (node_insert l x) _
          (node_insert-Balanced l x b.3 (omega arith))
          (λ (l', i) _ g. grow_left y h l r l' i b s g))
  | inr e ↦ elim (Bool-cases (leb y.end x.start)) [
    | inl f ↦
        rw (e, f, Returns)
          (Returns-bind (Grown r) (Grown (node y h l r)) (node_insert r x) _
            (node_insert-Balanced r x b.4 (omega arith))
            (λ (r', i) _ g. grow_right y h l r r' i b s g))
    | inr f ↦ rw (e, f, Returns) (b, omega arith, omega arith, λ _. refl)
  ]
]
