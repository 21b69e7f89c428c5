-- ===== src/Sync.antt =====
-- Reference counts and objects (kernel/kernel/sync.c).
pub mod Object
pub mod Counted
mod Tests
