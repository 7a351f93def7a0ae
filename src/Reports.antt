-- ===== src/Reports.antt =====
-- Reports (apps/reports): the private storage of report files and their metadata.
pub mod Storage
pub mod Artifacts
mod Tests
