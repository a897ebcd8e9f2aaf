-- ===== src/Converter/Produced.antt =====
-- What `EventToCombinedMetrics` of aggregators/converter.go hands to its callback.
use apm_aggregation.Base.{
  ℕ, zero, suc, ◌^◌, ◌<◌, ◌≡◌, refl, ap, ◌∙◌, Option, some, List, map, arith,
}
use apm_aggregation.Base.Lists.{length}
use apm_aggregation.Base.Search.{Slices}
use apm_aggregation.Bars.{Bar}
use apm_aggregation.Pb.{
  Text, HdrHistogram, SpanAggregationKey, SpanMetrics, KeyedSpanMetrics, ServiceAggregationKey,
  ServiceInstanceAggregationKey, TransactionAggregationKey, ServiceTransactionAggregationKey,
}
use apm_aggregation.Pb
use apm_aggregation.Models.Env.{Env}
use apm_aggregation.Codec.Key.{CombinedMetricsKey}
use apm_aggregation.Timestamps.{time_to_pb_timestamp}
use apm_aggregation.Converter.Event.{ApmEvent, Floats}
use apm_aggregation.Converter.Produce.{
  produced, pair, service_aggregation_key, get_partitioned_metrics_builder, labelled,
  event_to_combined_metrics,
}
use apm_aggregation.Converter.Outcome.{event_count, process_event-Outcome}
use apm_aggregation.Converter.Pairs.{
  Produces, all_pairs-IsCombinedIn, all_count-pairs, pairs-IsSpread,
}

module _ {F S D : Type 0} (env : Env F S D) (f : Floats F) (lib : Slices Bar) where
  labelled-Produces :
      (e : ApmEvent F) (k : CombinedMetricsKey) (n : ℕ) (old : HdrHistogram) (l : Text)
      → 0 < n
      → n < 2 ^ 16
      → (cms : List (CombinedMetricsKey × Pb.CombinedMetrics F)) × (labelled env f lib e k n old
            (some l)
          ≡ produced cms)
        × Produces n k (event_count f e e.type_) cms
  unfolding get_partitioned_metrics_builder
  labelled-Produces e k zero old l z b = absurd (omega (arith, z))
  labelled-Produces e k (suc m) old l z b =
      let sk = service_aggregation_key e k.interval in
      let sik : ServiceInstanceAggregationKey = record { global_labels_str = l } in
      let p = get_partitioned_metrics_builder env f lib sk sik (suc m) old in
      let (h, well, (bs, run, t)) =
        process_event-Outcome env f lib p.service_instance_hash old m b e in
      let total = f.share (length bs) in
      let youngest = time_to_pb_timestamp e.received in
      (
        map (pair k sk sik total youngest) bs,
        rw run refl,
        record {
          keys = pairs-IsSpread (suc m) k sk sik total youngest bs t.partitioned;
          combined = all_pairs-IsCombinedIn k sk sik total youngest h bs t.built well;
          counts = λ j q. all_count-pairs k sk sik total youngest j q bs ∙ t.counts j q;
        },
      )

  -- For a number of partitions from 1 to 65535, an event whose labels can be marshalled is converted
  -- without a panic. The keys are the one that is given in partitions below that number, each partition
  -- once; the metrics are well formed, as the merger wants them; and in each histogram bucket they
  -- count together: for a transaction with a positive representative count and a duration of 0 to
  -- below 2 ^ 32 microseconds, rounded to zero, the duration once as a transaction and once as a
  -- service transaction, scaled by that count; for a transaction of any other duration, whose error
  -- from RecordDuration is dropped, and for every other event, nothing.
  pub event_to_combined_metrics-Produces :
      (labels : ApmEvent F → Option Text) (e : ApmEvent F) (k : CombinedMetricsKey) (n : ℕ)
      (old : HdrHistogram) (l : Text)
      → labels e ≡ some l
      → 0 < n
      → n < 2 ^ 16
      → (cms : List (CombinedMetricsKey × Pb.CombinedMetrics F)) × (event_to_combined_metrics env f
            lib labels e k n old
          ≡ produced cms)
        × Produces n k (event_count f e e.type_) cms
  unfolding event_to_combined_metrics
  event_to_combined_metrics-Produces labels e k n old l h z b =
      let (cms, run, t) = labelled-Produces e k n old l z b in
      (cms, ap (labelled env f lib e k n old) h ∙ run, t)
