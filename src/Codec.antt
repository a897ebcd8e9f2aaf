-- ===== src/Codec.antt =====
-- Conversions and encodings, aggregators/codec.go.
pub mod Keys
pub mod RoundTrip
pub mod Key
pub mod Metrics
pub mod Histograms
mod Tests
