-- ===== src/Auth.antt =====
-- internal/auth: rate limits and the credentials read from a request.
pub mod Limiter
pub mod Window
pub mod Request
pub mod Access
mod Tests
