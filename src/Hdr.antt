-- ===== src/Hdr.antt =====
-- The sparse HDR histogram, aggregators/internal/hdrhistogram/hdrhistogram.go.
pub mod Counts
pub mod Index
pub mod Iterator
pub mod Representation
mod Tests
