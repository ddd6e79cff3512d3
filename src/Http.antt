-- ===== src/Http.antt =====
-- Exceptions, JSON values, and the filter that answers a failed request: src/common/filters.
pub mod Exception
pub mod Json
pub mod Filter
pub mod Tests
