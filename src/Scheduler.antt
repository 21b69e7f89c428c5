-- ===== src/Scheduler.antt =====
-- The scheduler (kernel/kernel/scheduler.c).
pub mod Select
pub mod Trace
pub mod State
pub mod Queues
pub mod Balance
pub mod Dispatch
pub mod Topology
pub mod Tasks
pub mod Waiting
pub mod Placed
pub mod Moves
pub mod Keeps
pub mod Plain
pub mod Wakes
pub mod Woken
pub mod Next
pub mod Alike
pub mod Yields
pub mod Running
pub mod Handing
pub mod Scheduled
pub mod Blocks
pub mod Balanced
pub mod Preempts
pub mod Ticks
pub mod Slots
pub mod Created
pub mod Configured
pub mod Started
pub mod Latency
pub mod WakeChannel
pub mod Detached
pub mod Reaping
mod Tests
pub mod Passes
pub mod Best
pub mod Selected
