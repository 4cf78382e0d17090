-- ===== src/Kernel.antt =====
-- src-v2/sequence.ts: the kernel.
pub mod Data
pub mod Tree
pub mod Host
pub mod Guards
pub mod Exec
pub mod Step
pub mod Calls
pub mod Propagate
pub mod Insert
mod Tests
pub mod Trace
pub mod Moves
pub mod Invariant
pub mod Evolution
pub mod Flags
pub mod Silent
pub mod Quiet
pub mod ReadBack
