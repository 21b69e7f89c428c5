-- ===== src/Vma.antt =====
-- The tree of virtual memory areas (kernel/kernel/vma.c): an AVL tree of address ranges
-- [start, end) over a pool of nodes, with a first-fit search for a gap.
--   Node: the nodes, the pool, rotations, insertion and removal.
--   Gap: the search for a gap.
--   Tree: the operations that the rest of the kernel calls.
-- The other modules hold the proofs.
pub mod Node
pub mod Gap
pub mod Tree
pub mod InOrder
pub mod Balance
pub mod Height
pub mod Regions
pub mod RemoveRegion
pub mod Search
pub mod Align
pub mod Walk
pub mod FirstFit
pub mod FindGap
pub mod Lookup
pub mod Client
pub mod ZeroGap
pub mod Refine
mod Tests
pub mod Valid
pub mod Spec
pub mod Correct
