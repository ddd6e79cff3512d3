-- ===== src/Metrics.antt =====
-- Dashboard metrics: src/metrics/metrics-aggregation.service.ts.
pub mod Keys
pub mod Commands
pub mod Store
pub mod Volume
pub mod Tables
pub mod Merge
pub mod Rounding
pub mod Window
pub mod Live
pub mod Dashboard
pub mod Service
pub mod Debug
pub mod Ranking
pub mod Tests
