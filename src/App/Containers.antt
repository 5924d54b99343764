-- ===== src/App/Containers.antt =====
-- crates/colui-app/src/containers.rs: reading logs and running actions on containers.
pub mod LogRing
pub mod LogStream
pub mod Session
pub mod Action
pub mod ActionOutcome
pub mod Logs
mod Tests
