-- ===== src/Lib.antt =====
-- The aggregation of APM events, apm-aggregation.
--
-- Combined metrics are maps of services, of service instances in them, and of transaction, service
-- transaction and span groups in those. Two of them are merged by merging group by group; a limit on
-- the groups sends what does not fit to overflow buckets. Groups hold sparse HDR histograms. Keys of
-- groups travel as protobuf messages, and combined metrics are stored in a database under an encoded
-- key that has the interval, the processing time, an ID and a partition.
--
-- What models what, by the path of the code in the repository:
--   Base, Bars: helpers, and the reference view of a histogram as a sorted list of bars.
--   Merger/Histogram: `mergeHistogram` of aggregators/merger.go, its loops as recursion.
--   Merger/Metrics: `mergeTransactionMetrics`, `mergeSpanMetrics` and the others of that family.
--   Merger/Overflow: `Merge` and `MergeOverflow` of aggregators/models.go, `insertHash`,
--     `mergeEstimator`, `mergeOverflow` and `mergeToOverflowFromSIM`.
--   Merger/Groups: `mergeTransactionGroups`, `mergeServiceTransactionGroups`, `mergeSpanGroups`. The
--     pointers to the map, the constraints and the overflow bucket are one state that is passed on.
--   Merger/Combined: `merge`, `mergeServiceInstanceGroups` and the lookups of services and instances,
--     aggregators/merger.go.
--   Merger/Database: `MergeNewer`, `MergeOlder` and `Finish`, and the `Merge` function that
--     aggregators/aggregator.go gives to the database.
--   Hdr/Counts, Hdr/Index, Hdr/Iterator, Hdr/Representation: `HybridCountsRep`, the indices of values,
--     the iterator and `HistogramRepresentation` of aggregators/internal/hdrhistogram/hdrhistogram.go.
--   Cached: aggregators/cachedeventsmap.go; a call of `add` is a sequence of atomic operations, and
--     calls that run at the same time are a step relation on the map and the calls.
--   Converter/Event: what aggregators/converter.go reads of an event, and `setTransactionKey`,
--     `setSpanKey`, `setSpanMetrics` and the others of that family.
--   Converter/Partitions, Converter/Builders: `get` and `processEvent` of `partitionedMetricsBuilder`
--     with the metrics that they add; a pointer to a builder is its place in the list.
--   Converter/Produce: `EventToCombinedMetrics`, as the pairs that it calls its callback with.
--   Timestamps: aggregators/internal/timestamppb/timestamppb.go.
--   Aggregator/State: `Aggregator` of aggregators/aggregator.go, `AggregateBatch`,
--     `AggregateCombinedMetrics` and `aggregate`, as functions of the state.
--   Aggregator/Order, Aggregator/Bounds: the order of encoded keys and the bounds of a harvest.
--   Aggregator/Harvest: `harvest`, `harvestForInterval`, `processHarvest`, `commitAndHarvest`.
--   Aggregator/Run: the loop of `Run` and the batches that come in meanwhile, as a step relation:
--     the timer fires and the batch is taken, the batch is harvested, and between any two of these
--     steps batches are aggregated.
--   Aggregator/Close, Aggregator/Lock: `Close`, and what it and `Run` wait for.
--   Constraint: aggregators/internal/constraint/constraint.go.
--   Models, Pb: aggregators/models.go and the messages of aggregationpb/aggregation.pb.go.
--   Codec: the conversions of keys and the encoding of `CombinedMetricsKey`, aggregators/codec.go, and
--     `ToProto` of combined metrics and what they hold, and the conversions of histograms.
--   Hash: aggregators/internal/protohash/generated.go.
--   Nullable: aggregators/nullable/bool.go.
--   Config: `validateCfg` of aggregators/config.go, and `NewConfig` with its options.
--
-- A panic is `none`, or a constructor where an operation also returns errors. Integers are natural
-- numbers with their wrap-around written out, signed ones by their bit patterns, but for the
-- durations of the configuration, which are integers with a sign. A map is an association list.
--
-- Events meet the aggregator through `Calls` of Aggregator/State, whose law `Converts` of
-- Aggregator/Kept the conversion of events fulfils (Converter/Aggregated). The database is pebble, by
-- `Pebble` of Aggregator/Pebble with its documentation as laws; the merging that it calls is
-- Merger/Database.
--
-- Parameters: the search and the insertion of golang.org/x/exp/slices (`Slices` of Base/Search, with
-- their documentation as laws), float64 arithmetic, the sketches of hyperloglog and the digests of
-- xxhash (`Env` of Models/Env), the codec of messages (Merger/Database), the rounding of counts
-- as float64 (Hdr/Representation, Cached), float64 in the conversion of events (`Floats` of
-- Converter/Event), pebble, and what stands in memory behind a slice that grows (`sb`
-- and `sc`). Each has an instance that the tests use.
--
-- Fuel: the first loop of `mergeHistogram` recurses on its lists. The second, `fill`, counts down the
-- index that it writes, which is the loop's own variable, and so needs no more fuel than the length
-- of the result. The binary search of the standard library halves its range and recurses on fuel
-- that the length bounds.
--
-- The loop of `getBucketCount` has fuel 64 for at most that many doublings of an int64, and the number
-- of binary digits fuel 64 for 64 of them.
--
-- Not modelled: the conversion of combined metrics to events, which fills messages of apm-data; the
-- labels of events, whose marshalled form is a parameter; telemetry, the counters, spans and log lines
-- of which are left out of the aggregator; generated marshalling, cloning and pools of messages, where
-- a clone is the value itself; limits of a constraint below zero. A harvest is one step of `Run`, and
-- batches that come in during it are steps before or after it (Aggregator/Spared has what makes up for
-- that). Keys that `AggregateCombinedMetrics` is given from outside may be
-- of any time, and are not part of the invariant of `Run`.
pub mod Base
pub mod Bars
pub mod Hdr
pub mod Pb
pub mod Models
pub mod Codec
pub mod Hash
pub mod Merger
pub mod Nullable
pub mod Constraint
pub mod Config
pub mod Cached
pub mod Timestamps
pub mod Aggregator
pub mod Converter
