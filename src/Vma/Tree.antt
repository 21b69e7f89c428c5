-- ===== src/Vma/Tree.antt =====
-- The operations of kernel/kernel/vma.c that the rest of the kernel calls. `none` as the outcome of
-- an operation that changes the tree is a fault; an out-parameter that is written is `some`.
use dfos.Base.{
  ℕ, ◌+◌, ◌-◌, ◌%◌, ◌^◌, Bool, true, false, Option, none, some, ◌||◌, not, ltb, leb, ◌==◌,
  if◌then◌else◌, bit_and, ◌>>=◌,
}
use dfos.Vma.Node.{
  Region, Tree, null, node, NodePool, node_alloc, node_free, node_insert, node_remove,
  node_leftmost, node_release_subtree,
}
use dfos.Vma.Gap.{GapSearch, align_up_u32, add_fits_limit, gap_search_in_order}

pub record VmaTree : Type 0 where
  pub root : Tree
  pub node_count : ℕ

unfoldable pub vma_tree_init : VmaTree
vma_tree_init = record { root = null; node_count = 0 }

unfoldable pub vma_tree_clear : VmaTree → NodePool → VmaTree × NodePool
vma_tree_clear t pool = (record { root = null; node_count = 0 }, node_release_subtree t.root pool)

-- The end of `vma_tree_insert`, with what `node_insert` returned.
unfoldable pub finish_insert : VmaTree → NodePool → Tree → Bool → Bool × VmaTree × NodePool
finish_insert t pool root true =
    (true, record { root = root; node_count = (t.node_count + 1) % 2 ^ 32 }, pool)
finish_insert t pool root false = (false, record t { root = root }, node_free pool)

abbrev insert_node : VmaTree → Option Region × NodePool → Option (Bool × VmaTree × NodePool)
insert_node t (none, pool) = some (false, t, pool)
insert_node t (some x, pool) =
    node_insert t.root x >>= λ (root, inserted). some (finish_insert t pool root inserted)

unfoldable pub vma_tree_insert : VmaTree → NodePool → ℕ → ℕ → ℕ → Option (Bool × VmaTree × NodePool)
vma_tree_insert t pool start end flags =
    if leb end start
    then some (false, t, pool)
    else insert_node t (node_alloc (record { start = start; end = end; flags = flags }) pool)

unfoldable pub vma_tree_remove : VmaTree → NodePool → ℕ → ℕ → Option (Bool × VmaTree × NodePool)
vma_tree_remove t pool start end = node_remove t.root start end pool >>= λ (root, removed, p).
    some (
      removed,
      record {
        root = root;
        node_count = if removed then (t.node_count + 2 ^ 32 - 1) % 2 ^ 32 else t.node_count;
      },
      p,
    )

-- The loop of `vma_tree_find` walks down one branch.
unfoldable pub find_from : Tree → ℕ → Option Region
find_from null address = none
find_from (node x h l r) address = elim (ltb address x.start) [
  | true ↦ find_from l address
  | false ↦ elim (leb x.end address) [ true ↦ find_from r address | false ↦ some x ]
]

unfoldable pub vma_tree_find : VmaTree → ℕ → Option Region
vma_tree_find t address = find_from t.root address

unfoldable pub vma_tree_first : VmaTree → Option Region
vma_tree_first t = node_leftmost t.root

-- The end of `vma_tree_find_gap`, after the search.
unfoldable pub finish_gap : GapSearch → Option ℕ
finish_gap s =
    if s.found
    then some s.result
    else if add_fits_limit s.cursor s.size s.max_addr
    then some s.cursor
    else none

unfoldable pub vma_tree_find_gap : VmaTree → ℕ → ℕ → ℕ → ℕ → Option ℕ
vma_tree_find_gap t min_addr max_addr size alignment =
    if size == 0 || leb max_addr min_addr || alignment == 0
    then none
    else if not (bit_and alignment (alignment - 1) == 0)
    then none
    else (let start = align_up_u32 min_addr alignment in
        if ltb start min_addr || leb max_addr start
        then none
        else finish_gap (
            gap_search_in_order t.root (record {
              cursor = start;
              max_addr = max_addr;
              size = size;
              alignment = alignment;
              result = 0;
              found = false;
            })))

unfoldable pub vma_tree_node_count : VmaTree → ℕ
vma_tree_node_count t = t.node_count
