-- ===== src/Server.antt =====
-- What watches over the process: src/health and src/common.
pub mod Health
pub mod Shutdown
pub mod Logging
pub mod Notification
pub mod Config
pub mod Tests
