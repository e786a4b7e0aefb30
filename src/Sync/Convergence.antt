-- ===== src/Sync/Convergence.antt =====
-- One direction of an exchange makes the receiver hold what the sender holds.
-- internal/mesh/sync/sync.go
pub mod Deliver
pub mod Origin
pub mod Writable
pub mod Behind
pub mod Exchange
