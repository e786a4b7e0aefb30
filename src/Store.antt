-- ===== src/Store.antt =====
-- The archive of one node: internal/store/records.go over the tables of internal/store/migrations.
-- A table is the list of its rows in the order of insertion, and an SQL statement is a function
-- over such lists.
pub mod Record
pub mod Table
pub mod Append
pub mod Order
pub mod Query
pub mod Peers
pub mod Extraction
