-- ===== src/Vma/Refine/Insert.antt =====
-- The insertion of kernel/kernel/vma.c inserts a region into the list of regions, or refuses one
-- that overlaps.
use mathlib.Core.Option
use dfos.Base.{
  ℕ, ◌≤◌, ◌<◌, Bool, false, ◌≡◌, ◌∙◌, List, [], ◌∷◌, ◌++◌, Option, none, some, arith, leb,
  if◌then◌else◌, leb→le, leb_false→lt, Bool-cases, Option-cases, inl, inr, >>=-eq-some, ◌>>=◌,
}
use dfos.Base.Int.{ℤ}
use dfos.Vma.Node.{Region, Tree, null, node, node_insert, rebalance_if}
use dfos.Vma.InOrder.{to_list, rebalance_if-to_list}
use dfos.Vma.Regions.{Within, Within-le, insert_region}
use dfos.Vma.Search.{Search, to_list-Within}

insert_before :
    (x y : Region) (xs ys : List Region)
    → x.end ≤ y.start
    → insert_region x (xs ++ (y ∷ ys)) ≡ Option.map (λ zs. zs ++ (y ∷ ys)) (insert_region x xs)
unfolding insert_region
insert_before x y [] ys h = ground arith
insert_before x y (z ∷ xs) ys h = elim (Option-cases (insert_region x xs)) [
  | inl e ↦ ground (arith, insert_before x y xs ys h)
  | inr (zs, e) ↦ ground (arith, insert_before x y xs ys h)
]

insert_after :
    (x y : Region) (lo hi : ℕ) (xs ys : List Region)
    → Within lo hi xs
    → hi ≤ y.start
    → y.start < y.end
    → x.start < x.end
    → y.end ≤ x.start
    → insert_region x (xs ++ (y ∷ ys)) ≡ Option.map (λ zs. xs ++ (y ∷ zs)) (insert_region x ys)
unfolding insert_region
insert_after x y lo hi [] ys w q r u h = ground arith
insert_after x y lo hi (z ∷ xs) ys w q r u h = elim (Option-cases (insert_region x ys)) [
  | inl e ↦ ground (arith, Within-le z.end hi xs w.2, insert_after x y z.end hi xs ys w.2 q r u h)
  | inr (zs, e) ↦
      ground (arith, Within-le z.end hi xs w.2, insert_after x y z.end hi xs ys w.2 q r u h)
]

insert_clash :
    (x y : Region) (lo hi : ℕ) (xs ys : List Region)
    → Within lo hi xs
    → hi ≤ y.start
    → y.start < x.end
    → x.start < y.end
    → insert_region x (xs ++ (y ∷ ys)) ≡ none
unfolding insert_region
insert_clash x y lo hi [] ys w q u v = ground arith
insert_clash x y lo hi (z ∷ xs) ys w q u v =
    ground (arith, Within-le z.end hi xs w.2, insert_clash x y z.end hi xs ys w.2 q u v)

-- What the list has after the insertion.
abbrev pub insert_outcome : Tree × Bool → Option (List Region)
insert_outcome (t, inserted) = if inserted then some (to_list t) else none

-- The outcome at a node follows from the outcome at its child.
outcome_left :
    (x y : Region) (h : ℤ) (l r l' t' : Tree) (inner outer : Bool)
    → x.end ≤ y.start
    → insert_region x (to_list l) ≡ insert_outcome (l', inner)
    → rebalance_if inner (node y h l' r) ≡ some (t', outer)
    → insert_region x (to_list l ++ (y ∷ to_list r)) ≡ insert_outcome (t', outer)
outcome_left x y h l r l' t' inner outer p ih e =
    let (same, keeps) = rebalance_if-to_list inner outer (node y h l' r) t' e in
    insert_before x y (to_list l) (to_list r) p ∙ ground arith

outcome_right :
    (x y : Region) (lo : ℕ) (h : ℤ) (l r r' t' : Tree) (inner outer : Bool)
    → Within lo y.start (to_list l)
    → y.start < y.end
    → x.start < x.end
    → y.end ≤ x.start
    → insert_region x (to_list r) ≡ insert_outcome (r', inner)
    → rebalance_if inner (node y h l r') ≡ some (t', outer)
    → insert_region x (to_list l ++ (y ∷ to_list r)) ≡ insert_outcome (t', outer)
outcome_right x y lo h l r r' t' inner outer w q u p ih e =
    let (same, keeps) = rebalance_if-to_list inner outer (node y h l r') t' e in
    insert_after x y lo y.start (to_list l) (to_list r) w (omega arith) q u p ∙ ground arith

pub node_insert-insert_region :
    (lo hi : ℕ) (t : Tree) (x : Region) (t' : Tree) (inserted : Bool)
    → Search lo hi t
    → x.start < x.end
    → node_insert t x ≡ some (t', inserted)
    → insert_region x (to_list t) ≡ insert_outcome (t', inserted)
unfolding node_insert
node_insert-insert_region lo hi null x t' inserted s u e = unfold insert_region in (ground arith)
node_insert-insert_region lo hi (node y h l r) x t' inserted (sl, q, sr) u e =
    elim (Bool-cases (leb x.end y.start)) [
      | inl before ↦
          let e0 : (node_insert l x >>= λ (l', i). rebalance_if i (node y h l' r))
              ≡ some (t', inserted) =
            rw (before, node_insert) at e in
          let ((l', i), e1, e2) = >>=-eq-some (node_insert l x) _ e0 in
          outcome_left x y h l r l' t' i inserted (leb→le _ _ before)
            (node_insert-insert_region lo y.start l x l' i sl u e1) e2
      | inr not_before ↦ elim (Bool-cases (leb y.end x.start)) [
        | inl after ↦
            let e0 : (node_insert r x >>= λ (r', i). rebalance_if i (node y h l r'))
                ≡ some (t', inserted) =
              rw (not_before, after, node_insert) at e in
            let ((r', i), e1, e2) = >>=-eq-some (node_insert r x) _ e0 in
            outcome_right x y lo h l r r' t' i inserted (to_list-Within lo y.start l sl) q u
              (leb→le _ _ after) (node_insert-insert_region y.end hi r x r' i sr u e1) e2
        | inr not_after ↦
            let e0 : ◌≡◌ {A = Option (Tree × Bool)} (some (node y h l r, false))
                (some (t', inserted)) =
              rw (not_before, not_after, node_insert) at e in
            insert_clash x y lo y.start (to_list l) (to_list r) (to_list-Within lo y.start l sl)
              (omega arith) (leb_false→lt _ _ not_before) (leb_false→lt _ _ not_after)
            ∙ ground arith
      ]
    ]
