-- ===== src/Net.antt =====
-- The network layer (src/TcpServer.cc, src/ConnectionContext.cc, include/net).
pub mod Context
pub mod Handler
pub mod Server
