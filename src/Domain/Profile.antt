-- ===== src/Domain/Profile.antt =====
-- crates/colui-domain/src/profile.rs.
mod Defs
pub mod Equality
pub mod Validation
unfoldable pub use Defs.*
