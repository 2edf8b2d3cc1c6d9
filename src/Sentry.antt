-- ===== src/Sentry.antt =====
-- internal/sentry: identifiers, platforms, the parser of envelopes, and the analysis of events.
pub mod Hex
pub mod Frame
pub mod Clean
pub mod Event
pub mod Kind
pub mod Json
pub mod Times
pub mod Reports
pub mod Sessions
pub mod Sanitize
pub mod Parse
pub mod Envelope
pub mod Framing
pub mod Limits
pub mod Stored
pub mod Images
pub mod Signature
pub mod Grouping
pub mod Id
pub mod Platform
mod Tests
