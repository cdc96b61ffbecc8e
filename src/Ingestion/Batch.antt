-- ===== src/Ingestion/Batch.antt =====
-- src/modules/ingestion/batched-ingestion-repository.ts: the write queue in front of the repository.
pub mod State
pub mod Options
pub mod Combine
pub mod Take
pub mod Flush
pub mod Events
pub mod Invariant
pub mod Safety
pub mod Places
pub mod Promises
pub mod Flights
pub mod Progress
pub mod Liveness
pub mod Backlog
mod Tests
