-- ===== src/Database.antt =====
-- src/database: the migrations, the partitions and the wait at the start of the server.
pub mod Session
pub mod Lock
pub mod Ledger
pub mod Works
pub mod Migrations
pub mod Partitions
pub mod Startup
pub mod Wait
pub mod Runtime
pub mod Errors
pub mod Config
