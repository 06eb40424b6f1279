-- ===== src/Jobs.antt =====
-- The job queue (engine/contextrail/repo.py) and its worker (engine/contextrail/jobs.py).
pub mod Queue
pub mod Next
pub mod Sound
pub mod Leases
pub mod Worker
pub mod Retries
