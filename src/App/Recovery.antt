-- ===== src/App/Recovery.antt =====
-- crates/colui-app/src/recovery.rs: restoring the registry from its backup.
pub mod Restore
pub mod Outcomes
mod Tests
