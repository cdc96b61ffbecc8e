-- ===== src/Aggregation.antt =====
-- src/modules/aggregation: counts of logs by time bucket and group.
pub mod Parameters
pub mod Count
pub mod Repository
pub mod Service
mod Tests
