-- ===== src/Session.antt =====
-- Who is logged in on which connection (src/server).
pub mod Manager
pub mod Store
