-- ===== src/Derive.antt =====
-- What a transcript line means. internal/derive
pub mod Identity
pub mod Project
