-- ===== src/Mesh.antt =====
-- The mesh of peers. internal/mesh
pub mod Health
pub mod Beacon
pub mod Dial
pub mod Known
pub mod Outcome
