-- ===== src/Events.antt =====
-- The gRPC ingestion path: src/events and src/websocket.
pub mod Request
pub mod Batcher
pub mod WebSocketBatcher
pub mod Service
pub mod Sessions
pub mod Storing
pub mod Broadcasting
pub mod Tests
