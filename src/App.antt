-- ===== src/App.antt =====
-- crates/colui-app: the use cases, on the interfaces that the adapters implement.
pub mod Operations
pub mod Profiles
pub mod Traced
pub mod Containers
pub mod Lifecycle
pub mod Status
pub mod Runtime
pub mod Recovery
