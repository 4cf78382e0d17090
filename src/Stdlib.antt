-- ===== src/Stdlib.antt =====
-- src-v2/stdlib: rules and readers over the kernel.
pub mod Partition
pub mod Snapshot
mod Tests
