-- ===== src/Codec.antt =====
-- The wire formats of the server (src/codec).
pub mod Packet
