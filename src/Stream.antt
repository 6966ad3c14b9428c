-- ===== src/Stream.antt =====
-- The library's part for src/redis and src/stream.
pub mod Redis
pub mod Replies
pub mod Events
pub mod Push
