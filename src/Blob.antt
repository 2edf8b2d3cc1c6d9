-- ===== src/Blob.antt =====
-- internal/blob: the object store.
pub mod Memory
mod Tests
