-- ===== src/Converter.antt =====
-- The conversion of events to combined metrics, aggregators/converter.go: what is read of an event
-- (Event), the builders of its metrics by partition (Partitions, Builders) and the combined metrics that
-- they give (Produce).
pub mod Partitions
pub mod Get
pub mod Event
pub mod Builders
pub mod Produce
pub mod Histogram
pub mod Built
pub mod Processed
pub mod Outcome
pub mod Pairs
pub mod Produced
pub mod Aggregated
mod Tests
mod EventTests
