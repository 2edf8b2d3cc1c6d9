-- ===== src/Ingest.antt =====
-- internal/ingest: redaction, and the write of an envelope with the statements of internal/store it runs.
pub mod Redact
pub mod Scrub
pub mod Prepare
pub mod Write
pub mod Commit
pub mod Accounting
pub mod Extras
pub mod Counts
pub mod Whole
pub mod Rollback
pub mod Inserted
pub mod Resend
pub mod Twice
mod Tests
