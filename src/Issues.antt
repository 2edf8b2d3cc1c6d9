-- ===== src/Issues.antt =====
-- internal/store/issues.go: the issues table and its statements.
pub mod Table
pub mod Releases
pub mod Sound
pub mod Statements
pub mod Totals
pub mod Regression
pub mod Ignored
mod Tests
