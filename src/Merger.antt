-- ===== src/Merger.antt =====
-- Merging of combined metrics, aggregators/merger.go.
pub mod Histogram
pub mod Metrics
pub mod Overflow
pub mod Groups
pub mod Combined
pub mod Database
mod Tests
