-- ===== src/Adapters/Inventory.antt =====
-- crates/colui-adapters/src/inventory.rs: the inventory of containers.
pub mod Normalize
pub mod Listed
pub mod Refresh
pub mod Backoff
pub mod Coordinator
pub mod Causal
pub mod Recorded
pub mod Answered
pub mod Refusal
mod Tests
