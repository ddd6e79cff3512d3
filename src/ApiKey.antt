-- ===== src/ApiKey.antt =====
-- API keys: src/api-key.
pub mod Repository
pub mod Service
pub mod Usage
pub mod Tests
