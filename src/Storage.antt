-- ===== src/Storage.antt =====
-- pkg/storage/clickhouse.go: `ClickHouseStore`.
pub mod Row
pub mod Schema
pub mod Query
pub mod Reader
pub mod Tags
pub mod Marks
pub mod Roots
pub mod Widths
pub mod Writer
pub mod Retry
pub mod Delivery
pub mod Drain
pub mod Bounds
