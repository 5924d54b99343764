-- ===== src/App/Lifecycle.antt =====
-- crates/colui-app/src/lifecycle.rs: applying, stopping, tearing down and restarting a project.
pub mod Project
pub mod Outcomes
mod Tests
