-- ===== src/Vma/Lookup.antt =====
-- The lookups and the clearing of kernel/kernel/vma.c, over the list of regions.
use mathlib.Core.List.{head?}
use dfos.Base.{
  ℕ, ◌+◌, ◌≤◌, ◌&&◌, ◌≡◌, refl, ◌∙◌, List, [], ◌∷◌, ◌++◌, some, arith, leb, ltb, if◌then◌else◌,
  length, length-append, Bool-cases, Option-cases, inl, inr,
}
use dfos.Vma.Node.{
  Region, Tree, null, node, NodePool, node_leftmost, node_release_subtree, node_free,
}
use dfos.Vma.Tree.{VmaTree, vma_tree_find, vma_tree_first, vma_tree_clear}
use dfos.Vma.InOrder.{to_list}
use dfos.Vma.Regions.{Within, find_region, insert_region}
use dfos.Vma.Search.{Search}
use dfos.Vma.Valid.{IsValid, view, max_address}
use dfos.Vma.Refine.Find.{find_from-find_region}

-- The lookup of an address finds the region that holds it, if there is one.
pub vma_tree_find-find_region :
    (t : VmaTree) (address : ℕ)
    → Search 0 max_address t.root
    → vma_tree_find t address ≡ find_region address (view t)
unfolding vma_tree_find
vma_tree_find-find_region t address s = find_from-find_region 0 max_address t.root address s

head?-append :
    (xs ys zs : List Region) (y : Region) → head? (xs ++ (y ∷ ys)) ≡ head? ((xs ++ (y ∷ ys)) ++ zs)
head?-append [] ys zs y = refl
head?-append (x ∷ xs) ys zs y = refl

node_leftmost-head? : (t : Tree) → node_leftmost t ≡ head? (to_list t)
unfolding node_leftmost
node_leftmost-head? null = refl
node_leftmost-head? (node x h null r) = refl
node_leftmost-head? (node x h (node y k a b) r) =
    node_leftmost-head? (node y k a b) ∙ head?-append (to_list a) (to_list b) (x ∷ to_list r) y

-- The first region is the leftmost.
pub vma_tree_first-head? : (t : VmaTree) → vma_tree_first t ≡ head? (view t)
unfolding vma_tree_first
vma_tree_first-head? t = node_leftmost-head? t.root

release-free_nodes :
    (t : Tree) (pool : NodePool)
    → node_release_subtree t pool
      ≡ record pool { free_nodes = pool.free_nodes + length (to_list t) }
unfolding node_release_subtree node_free
release-free_nodes null pool = ground arith
release-free_nodes (node x h l r) pool = ground (
  arith,
  release-free_nodes l pool,
  release-free_nodes r (node_release_subtree l pool),
  length-append (to_list l) (x ∷ to_list r),
)

-- Clearing a tree leaves no region and gives back every node.
pub vma_tree_clear-IsValid :
    (others : ℕ) (t : VmaTree) (pool : NodePool)
    → IsValid others t pool
    → let (t', pool') = vma_tree_clear t pool in
      (view t' ≡ [])
      × IsValid others t' pool'
      × (pool'.free_nodes ≡ pool.free_nodes + length (view t))
unfolding vma_tree_clear
vma_tree_clear-IsValid others t pool v = rw (release-free_nodes t.root pool) (
  refl,
  record { ordered = omega arith; balanced = tt; counted = refl; conserved = ground arith },
  refl,
)

-- The region that an insertion adds is found at its addresses; elsewhere nothing changes.
pub find_region-insert_region :
    (address lo hi : ℕ) (x : Region) (xs ys : List Region)
    → Within lo hi xs
    → insert_region x xs ≡ some ys
    → find_region address ys
      ≡ (if leb x.start address && ltb address x.end then some x else find_region address xs)
unfolding insert_region find_region
find_region-insert_region address lo hi x [] ys w e = ground arith
find_region-insert_region address lo hi x (y ∷ xs) ys w e = elim (Bool-cases (leb x.end y.start)) [
  | inl before ↦ let same : ys ≡ x ∷ y ∷ xs = ground arith in rw same refl
  | inr not_before ↦ elim (Option-cases (insert_region x xs)) [
    | inl clash ↦ absurd (ground arith)
    | inr (zs, eq) ↦
        let same : ys ≡ y ∷ zs = ground arith in
        let apart : y.end ≤ x.start = ground arith in
        rw same (ground (arith, find_region-insert_region address y.end hi x xs zs w.2 eq))
  ]
]
