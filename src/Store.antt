-- ===== src/Store.antt =====
-- internal/store: keyset cursors and accounts.
pub mod Cursor
pub mod Accounts
mod Tests
