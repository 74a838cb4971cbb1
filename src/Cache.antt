-- ===== src/Cache.antt =====
-- internal/cache: the copy-on-write map and the lock per key.
pub mod Cow
pub mod Barrier
