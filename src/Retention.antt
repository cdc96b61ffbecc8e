-- ===== src/Retention.antt =====
-- src/modules/retention: the maintenance run on the database, and when it runs.
pub mod Repository
pub mod Service
