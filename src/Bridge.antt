-- ===== src/Bridge.antt =====
-- Replication through a shared folder. internal/bridge/bridge.go
pub mod Key
pub mod Folder
pub mod Ranges
pub mod Round
pub mod Publish
pub mod Fetch
pub mod Missed
