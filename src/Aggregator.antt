-- ===== src/Aggregator.antt =====
-- The aggregator, aggregators/aggregator.go: its state and operations (State, Harvest, Run, Close, Lock),
-- the order of its keys (Order, Bounds) and the database that it uses (Pebble).
pub mod Order
pub mod Bounds
pub mod Pebble
pub mod State
pub mod Harvest
pub mod Due
pub mod Harvested
pub mod Timely
pub mod Unfinished
pub mod Kept
pub mod Run
pub mod Written
pub mod Spared
pub mod Invariant
pub mod Steps
pub mod Progress
pub mod Close
pub mod Closed
pub mod Emptied
pub mod Lock
mod Tests
