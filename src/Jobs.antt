-- ===== src/Jobs.antt =====
-- The job system of backend/app/queue and backend/app/repositories.
mod Examples
pub mod Ladder
pub mod Lease
pub mod Exclusion
pub mod Session
pub mod Retry
pub mod Polling
pub mod Projects
pub mod Ingestion
pub mod Generation
