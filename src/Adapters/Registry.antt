-- ===== src/Adapters/Registry.antt =====
-- crates/colui-adapters/src/registry/format.rs: the registry kept in a JSON file.
pub mod Disk
pub mod Frames
pub mod Writes
pub mod Atomicity
pub mod Format
pub mod RoundTrip
pub mod Lock
pub mod Store
pub mod Stored
pub mod Mutated
pub mod ProfileStore
pub mod Recovery
pub mod Artifacts
pub mod Health
pub mod Waits
pub mod Sorted
pub mod Pruned
pub mod Restored
pub mod Restoring
pub mod Shown
mod Tests
