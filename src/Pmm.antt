-- ===== src/Pmm.antt =====
-- The physical memory manager (kernel/kernel/pmm.c).
pub mod Bitmap
pub mod State
pub mod Search
pub mod Alloc
pub mod Count
pub mod Valid
pub mod Frames
pub mod Nodes
pub mod FindFrame
pub mod NodeSearch
pub mod RoundRobin
pub mod AllocFrame
pub mod Runs
pub mod Wrapped
pub mod Contiguous
pub mod RunSearch
pub mod AllocFrames
pub mod RoundTrip
pub mod Layout
mod Tests
