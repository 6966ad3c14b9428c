-- ===== src/Model.antt =====
-- The records that the layers share (include/common, include/model, include/protocol, include/config).
pub mod Status
pub mod Records
pub mod Settings
