-- ===== src/Cache.antt =====
-- The library's part for src/cache.
pub mod Store
pub mod Dedup
pub mod RateLimiter
mod Tests
