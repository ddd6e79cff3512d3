-- ===== src/EventsHttp.antt =====
-- Stored events, their search and their deletion: src/events-http.
pub mod Repository
pub mod Service
pub mod Tests
