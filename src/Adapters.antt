-- ===== src/Adapters.antt =====
-- crates/colui-adapters/src: the registry's file, the inventory and the cache of definitions.
pub mod Registry
pub mod Inventory
pub mod Definitions
