-- ===== src/Locks.antt =====
-- crates/colui-adapters/src/operations.rs: the lock manager for lifecycle operations, definition
-- loads, containers, registry mutations and registry recovery.
pub mod State
pub mod Sections
pub mod Guards
pub mod Handlers
pub mod Calls
pub mod Refusal
pub mod Local
pub mod System
pub mod Invariant
pub mod Preserve
pub mod Exclusion
pub mod Progress
pub mod Busy
mod Tests
