-- ===== src/Ingest.antt =====
-- How deliveries reach the database: src/ingest.
pub mod Dedup
pub mod Batch
pub mod Connector
pub mod Pipeline
