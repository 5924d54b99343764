-- ===== src/Domain.antt =====
-- crates/colui-domain: identities, errors, profiles and the values that the other crates exchange.
pub mod Text
pub mod FilePath
pub mod AppError
pub mod Identity
pub mod Canonical
pub mod Profile
pub mod Inventory
pub mod Order
pub mod Trim
pub mod Runtime
pub mod Discovery
mod Tests
