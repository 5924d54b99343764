-- ===== src/App/Status.antt =====
-- crates/colui-app/src/status.rs: what is shown of a project.
pub mod Association
pub mod Projection
pub mod Counts
pub mod Ambiguity
pub mod Shown
pub mod Named
mod Tests
