-- ===== src/Inventory.antt =====
-- src/domain/inventory, src/application/inventory and the in-memory inventory store.
pub mod Identifiers
pub mod Movement
pub mod Store
pub mod Record
pub mod Catalogue
