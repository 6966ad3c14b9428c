-- ===== src/Validation.antt =====
-- Checks of what clients send (src/common).
pub mod Utf8
pub mod Validator
