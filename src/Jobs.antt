-- ===== src/Jobs.antt =====
-- The background job queue and its worker (apps/jobs).
pub mod Model
pub mod Table
pub mod Queue
pub mod Worker
mod Tests
