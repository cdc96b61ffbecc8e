-- ===== src/Server.antt =====
-- src/config, src/shared: the settings, the readiness and the errors of the server.
pub mod Config
pub mod Readiness
pub mod Errors
mod Tests
