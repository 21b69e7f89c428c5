-- ===== src/Vma/Refine.antt =====
-- The operations of kernel/kernel/vma.c do to the list of regions what they mean.
pub mod Find
pub mod Insert
pub mod Remove
