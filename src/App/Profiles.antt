-- ===== src/App/Profiles.antt =====
-- crates/colui-app/src/profiles.rs: the registry's profiles and the operations on them.
pub mod Mutations
pub mod Lists
pub mod Validity
pub mod Lookup
pub mod Conflicts
pub mod Services
pub mod Operations
pub mod Outcomes
mod Tests
