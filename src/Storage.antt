-- ===== src/Storage.antt =====
-- The storage crates: storage/common (models, schema, queries), storage/reader and storage/writer.
pub mod Sql
pub mod Models
pub mod Contracts
pub mod Events
