-- ===== src/Adapters/Definitions.antt =====
-- crates/colui-adapters/src/definitions.rs: the cache of the projects' definitions.
pub mod Cache
pub mod Invalidation
pub mod Stored
pub mod Access
mod Tests
