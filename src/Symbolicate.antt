-- ===== src/Symbolicate.antt =====
-- internal/symbolicate: source maps and ProGuard mappings.
pub mod Vlq
pub mod RoundTrip
pub mod Search
pub mod SourceMap
pub mod Lookup
pub mod Scan
pub mod Files
pub mod ProGuard
pub mod Inlined
mod Tests
