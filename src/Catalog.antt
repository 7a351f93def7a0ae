-- ===== src/Catalog.antt =====
-- The catalog of products (apps/catalog): the normal forms of identifiers and the match of what was observed.
pub mod Normalization
pub mod Matching
mod Tests
