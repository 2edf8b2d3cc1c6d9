-- ===== src/Jobs.antt =====
-- internal/jobs and internal/store/jobs.go: the Postgres-backed job queue and its worker.
pub mod Backoff
pub mod Table
pub mod Sound
pub mod Claim
pub mod Enqueue
pub mod Release
pub mod Lease
pub mod Order
pub mod FanOut
pub mod Queue
pub mod Worker
pub mod Settle
pub mod Retry
mod Tests
