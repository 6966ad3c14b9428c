-- ===== src/Service.antt =====
-- The business services (src/service).
pub mod Exec
pub mod Interfaces
pub mod Common
pub mod Ids
pub mod Routing
pub mod Chat
pub mod Inbox
pub mod Friend
pub mod Group
pub mod GroupMessages
pub mod User
pub mod UserSessions
pub mod Fixtures
