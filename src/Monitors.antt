-- ===== src/Monitors.antt =====
-- internal/monitors and the monitors of internal/store, internal/alerts and internal/ingest: schedules,
-- check-ins and alerting states. The proofs are in the modules below.
pub mod State
pub mod Thresholds
pub mod Schedule
pub mod Units
pub mod Slots
pub mod Rows
pub mod Receive
pub mod Check
pub mod Runs
pub mod Accepted
pub mod Missed
mod Tests
