-- ===== src/Domain/Discovery.antt =====
-- crates/colui-domain/src/discovery.rs: candidates.
pub mod Digest
pub mod Encoding
pub mod Observations
pub mod Candidates
pub mod Classified
mod Tests
