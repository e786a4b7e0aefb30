-- ===== src/Tests.antt =====
-- Runs of the models on concrete inputs, and the theorems at such inputs.
pub mod Data
pub mod Version
pub mod Store
pub mod Collector
pub mod Node
pub mod Sync
pub mod Mesh
pub mod Ingest
pub mod Bridge
pub mod Project
pub mod Reprocess
pub mod Hostnames
pub mod Beacon
pub mod Update
