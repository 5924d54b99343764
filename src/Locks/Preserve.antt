-- ===== src/Locks/Preserve.antt =====
-- Every step of every thread keeps the invariant of the lock manager
-- (crates/colui-adapters/src/operations.rs).
pub mod Change
pub mod Counts
pub mod Entries
pub mod Ends
pub mod Begins
pub mod Waits
pub mod Barrier
pub mod Steps
