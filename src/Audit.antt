-- ===== src/Audit.antt =====
-- The audit trail (apps/audit): Merkle roots, sealing and verification of a tenant's chain.
pub mod Merkle
pub mod Texts
pub mod Block
pub mod Store
pub mod Sealing
pub mod Verification
pub mod Append
pub mod SealJob
pub mod Security
mod Tests
mod WriteTests
mod SecurityTests
