-- ===== src/Ingestion.antt =====
-- src/modules/ingestion: the ingestion service and the batching write queue.
pub mod Batch
pub mod Service
pub mod Repository
