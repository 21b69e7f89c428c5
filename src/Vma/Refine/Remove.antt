-- ===== src/Vma/Refine/Remove.antt =====
-- The removal of kernel/kernel/vma.c takes the region with the given bounds out of the list, if
-- there is one, and gives back one node.
use mathlib.Core.List.{append-nil}
use dfos.Base.{
  ℕ, ◌<◌, Bool, true, false, ◌≡◌, refl, ap, ◌∙◌, List, [], ◌∷◌, ◌++◌, Option, none, some, arith,
  ltb, ◌==◌, if◌then◌else◌, ltb→lt, ltb_false→le, ==_iff, Bool-cases, inl, inr, >>=-eq-some, ◌>>=◌,
}
use dfos.Base.Int.{ℤ}
use dfos.Vma.Node.{
  Region, Tree, null, node, NodePool, node_free, node_remove, node_leftmost, remove_root,
  rebalance_after,
}
use dfos.Vma.InOrder.{to_list, rebalance_after-to_list}
use dfos.Vma.Regions.{Within, remove_region}
use dfos.Vma.RemoveRegion.{remove_before, remove_past, remove_here, remove_skip, remove_mismatch}
use dfos.Vma.Search.{Search, to_list-Within}

pub node_leftmost-to_list :
    (t : Tree) (x : Region) → node_leftmost t ≡ some x → (xs : List Region) × (to_list t ≡ x ∷ xs)
unfolding node_leftmost
node_leftmost-to_list null x e = cc
node_leftmost-to_list (node y h null r) x e = (to_list r, cc)
node_leftmost-to_list (node y h (node z k a b) r) x e =
    let (xs, eq) = node_leftmost-to_list (node z k a b) x e in
    (xs ++ (y ∷ to_list r), ap (λ zs. zs ++ (y ∷ to_list r)) eq)

-- What `node_remove` does to the list of regions and to the pool.
pub record Removes (start end : ℕ) (t : Tree) (pool : NodePool) (t' : Tree) (removed : Bool)
    (p : NodePool) : Type 0 where
  pub outcome : remove_region start end (to_list t) ≡ (if removed then some (to_list t') else none)
  pub unchanged : removed ≡ false → to_list t' ≡ to_list t
  pub freed : p ≡ (if removed then node_free pool else pool)

Removes-left :
    (start end hi : ℕ) (y : Region) (h : ℤ) (l r l' t' : Tree) (pool p q : NodePool)
    (inner outer : Bool)
    → start < y.start
    → Within y.start hi (y ∷ to_list r)
    → Removes start end l pool l' inner p
    → rebalance_after (node y h l' r) (inner, p) ≡ some (t', outer, q)
    → Removes start end (node y h l r) pool t' outer q
Removes-left start end hi y h l r l' t' pool p q inner outer lt w v e =
    let (same, pools, keeps) = rebalance_after-to_list inner outer p q (node y h l' r) t' e in
    record {
      outcome = remove_before start end hi y (to_list l) (to_list r) lt w ∙ ground arith;
      unchanged = λ f. ground arith;
      freed = ground arith;
    }

Removes-right :
    (start end lo : ℕ) (y : Region) (h : ℤ) (l r r' t' : Tree) (pool p q : NodePool)
    (inner outer : Bool)
    → y.start < start
    → Within lo y.start (to_list l)
    → Removes start end r pool r' inner p
    → rebalance_after (node y h l r') (inner, p) ≡ some (t', outer, q)
    → Removes start end (node y h l r) pool t' outer q
Removes-right start end lo y h l r r' t' pool p q inner outer lt w v e =
    let (same, pools, keeps) = rebalance_after-to_list inner outer p q (node y h l r') t' e in
    record {
      outcome =
          remove_past start end lo y.start (to_list l) (y ∷ to_list r) w (omega arith)
          ∙ rw (remove_skip start end y (to_list r) lt) (ground arith);
      unchanged = λ f. ground arith;
      freed = ground arith;
    }

-- A node with two children takes over the range of its successor, which is removed instead.
Removes-successor :
    (lo : ℕ) (x y : Region) (xs : List Region) (h : ℤ) (l r r' t' : Tree) (pool p q : NodePool)
    (dropped outer : Bool)
    → Within lo y.start (to_list l)
    → to_list r ≡ x ∷ xs
    → Removes x.start x.end r pool r' dropped p
    → rebalance_after (node x h l r') (true, p) ≡ some (t', outer, q)
    → Removes y.start y.end (node y h l r) pool t' outer q
Removes-successor lo x y xs h l r r' t' pool p q dropped outer w list_r v e =
    let gone : remove_region x.start x.end (to_list r) ≡ some xs = rw list_r (remove_here x xs) in
    let (same, pools, keeps) = rebalance_after-to_list true outer p q (node x h l r') t' e in
    let is_dropped : dropped ≡ true = ground arith in
    let rest : to_list r' ≡ xs = ground arith in
    record {
      outcome =
          remove_past y.start y.end lo y.start (to_list l) (y ∷ to_list r) w (omega arith)
          ∙ rw (remove_here y (to_list r), same, keeps, rest, list_r) refl;
      unchanged = λ f. cc;
      freed = ground arith;
    }

Removes-root :
    (lo : ℕ) (y : Region) (h : ℤ) (l r t' : Tree) (pool q : NodePool) (outer : Bool)
    → Within lo y.start (to_list l)
    → ((start end : ℕ) (r' : Tree) (dropped : Bool) (p : NodePool)
        → node_remove r start end pool ≡ some (r', dropped, p)
        → Removes start end r pool r' dropped p)
    → remove_root h l r pool (λ x. node_remove r x.start x.end pool) ≡ some (t', outer, q)
    → Removes y.start y.end (node y h l r) pool t' outer q
unfolding remove_root
Removes-root lo y h null r t' pool q outer w rest e = record {
  outcome = remove_here y (to_list r) ∙ ground arith;
  unchanged = λ f. ground arith;
  freed = ground arith;
}
Removes-root lo y h (node z k c d) null t' pool q outer w rest e = record {
  outcome =
      remove_past y.start y.end lo y.start (to_list (node z k c d)) (y ∷ []) w (omega arith)
      ∙ rw (remove_here y []) (ground (arith, append-nil (to_list (node z k c d))));
  unchanged = λ f. ground arith;
  freed = ground arith;
}
Removes-root lo y h (node z k c d) (node u j a b) t' pool q outer w rest e =
    let l = node z k c d in
    let r = node u j a b in
    let (x, ex, e1) = >>=-eq-some (node_leftmost r) _ e in
    let ((r', dropped, p), er, e2) = >>=-eq-some (node_remove r x.start x.end pool) _ e1 in
    let (xs, list_r) = node_leftmost-to_list r x ex in
    Removes-successor lo x y xs h l r r' t' pool p q dropped outer w list_r
      (rest x.start x.end r' dropped p er) e2

-- `node_remove` takes the region out of the list, or leaves the list as it was.
pub node_remove-Removes :
    (lo hi start end : ℕ) (t t' : Tree) (pool q : NodePool) (removed : Bool)
    → Search lo hi t
    → node_remove t start end pool ≡ some (t', removed, q)
    → Removes start end t pool t' removed q
unfolding node_remove
node_remove-Removes lo hi start end null t' pool q removed s e = record {
  outcome = unfold remove_region in (ground arith);
  unchanged = λ f. ground arith;
  freed = ground arith;
}
node_remove-Removes lo hi start end (node y h l r) t' pool q removed (sl, yy, sr) e =
    elim (Bool-cases (ltb start y.start)) [
      | inl before ↦
          let e0 : (node_remove l start end pool >>= λ (l', i, p).
          rebalance_after (node y h l' r) (i, p))
              ≡ some (t', removed, q) =
            rw (before, node_remove) at e in
          let ((l', i, p), e1, e2) = >>=-eq-some (node_remove l start end pool) _ e0 in
          Removes-left start end hi y h l r l' t' pool p q i removed (ltb→lt _ _ before)
            (omega arith, yy, to_list-Within y.end hi r sr)
            (node_remove-Removes lo y.start start end l l' pool p i sl e1) e2
      | inr not_before ↦ elim (Bool-cases (ltb y.start start)) [
        | inl after ↦
            let e0 : (node_remove r start end pool >>= λ (r', i, p).
            rebalance_after (node y h l r') (i, p))
                ≡ some (t', removed, q) =
              rw (not_before, after, node_remove) at e in
            let ((r', i, p), e1, e2) = >>=-eq-some (node_remove r start end pool) _ e0 in
            Removes-right start end lo y h l r r' t' pool p q i removed (ltb→lt _ _ after)
              (to_list-Within lo y.start l sl)
              (node_remove-Removes y.end hi start end r r' pool p i sr e1) e2
        | inr not_after ↦
            let same : start ≡ y.start =
              omega (arith, ltb_false→le _ _ not_before, ltb_false→le _ _ not_after) in
            elim (Bool-cases (y.end == end)) [
              | inl found ↦
                  let e0 : remove_root h l r pool (λ x. node_remove r x.start x.end pool)
                      ≡ some (t', removed, q) =
                    rw (not_before, not_after, found, node_remove) at e in
                  rw (same, ← (==_iff _ _).0 found)
                    (Removes-root lo y h l r t' pool q removed (to_list-Within lo y.start l sl)
                      (λ a b r' d p ed. node_remove-Removes y.end hi a b r r' pool p d sr ed) e0)
              | inr other ↦
                  let e0 : ◌≡◌ {A = Option (Tree × Bool × NodePool)}
                      (some (node y h l r, false, pool)) (some (t', removed, q)) =
                    rw (not_before, not_after, other, node_remove) at e in
                  record {
                    outcome =
                        rw
                          (
                            remove_past start end lo y.start (to_list l) (y ∷ to_list r)
                                (to_list-Within lo y.start l sl) (omega arith),
                            remove_mismatch start end hi y (to_list r)
                                (to_list-Within y.end hi r sr) (omega arith) (ground arith),
                          )
                          (ground arith);
                    unchanged = λ f. ground arith;
                    freed = ground arith;
                  }
            ]
      ]
    ]
