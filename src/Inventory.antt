-- ===== src/Inventory.antt =====
-- The inventory (apps/inventory): its items and where their facts come from.
pub mod Model
pub mod Provenance
mod Tests
