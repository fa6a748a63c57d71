-- ===== src/Broker.antt =====
-- The ingestion server, crates/precall-broker.
pub mod Auth
pub mod Frames
pub mod Ingest
pub mod Connect
pub mod Session
