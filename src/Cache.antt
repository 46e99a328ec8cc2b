-- ===== src/Cache.antt =====
-- packages/cache/src/store.ts: the key-value store and its glob patterns.
pub mod Glob
pub mod Store
mod Tests
