-- ===== src/App/Runtime.antt =====
-- crates/colui-app/src/runtime.rs: the session with the container daemon.
pub mod Reconnect
pub mod Outcomes
mod Tests
