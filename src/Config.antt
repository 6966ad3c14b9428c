-- ===== src/Config.antt =====
-- The configuration of the server (src/config).
pub mod Json
pub mod Sections
pub mod Environment
pub mod Validating
pub mod Redis
pub mod Loading
pub mod Valid
pub mod RedisSettings
pub mod Accepting
mod Tests
