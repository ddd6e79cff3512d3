-- ===== src/Iam.antt =====
-- Accounts and sessions: src/iam, src/users and src/integrations/redis.
pub mod Platform
pub mod Users
pub mod RedisService
pub mod Authentication
pub mod Mails
pub mod Controller
pub mod Guards
pub mod Tests
