-- ===== src/Vma/Valid.antt =====
-- The invariant of a `vma_tree_t` and of the node pool (kernel/kernel/vma.c).
use dfos.Base.{ℕ, ◌+◌, ◌≡◌, List, if◌then◌else◌, length}
use dfos.Vma.Node.{Region, NodePool, vma_max_nodes}
use dfos.Vma.Tree.{VmaTree}
use dfos.Vma.InOrder.{to_list}
use dfos.Vma.Balance.{Balanced}
use dfos.Vma.Search.{Search}

-- The largest address.
abbrev pub max_address : ℕ
max_address = 0xffff_ffff

-- The nodes that the pool can still hand out. Before the first call it is not set up.
abbrev pub available : NodePool → ℕ
available p = if p.initialized then p.free_nodes else vma_max_nodes

abbrev pub view : VmaTree → List Region
view t = to_list t.root

-- `others` is the number of nodes that other trees hold: the pool is shared.
pub record IsValid (others : ℕ) (t : VmaTree) (pool : NodePool) : Type 0 where
  pub ordered : Search 0 max_address t.root
  pub balanced : Balanced t.root
  pub counted : t.node_count ≡ length (view t)
  pub conserved : length (view t) + others + available pool ≡ vma_max_nodes
