-- ===== src/Domain.antt =====
-- src/domain: timestamps, log entries, their validation and their search attributes.
pub mod Calendar
pub mod Timestamp
pub mod Json
pub mod Checked
pub mod LogEntry
pub mod Validator
pub mod Normalizer
