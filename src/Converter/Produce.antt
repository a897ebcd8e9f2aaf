-- ===== src/Converter/Produce.antt =====
-- `EventToCombinedMetrics` of aggregators/converter.go: the keys and combined metrics that it calls its
-- callback with, one pair for each partition.
use apm_aggregation.Base.{ℕ, Option, none, some, List, [], ◌∷◌, map}
use apm_aggregation.Base.Lists.{length}
use apm_aggregation.Base.Search.{Slices}
use apm_aggregation.Bars.{Bar}
use apm_aggregation.Pb.{
  Text, HdrHistogram, TransactionAggregationKey, ServiceTransactionAggregationKey,
  SpanAggregationKey, ServiceAggregationKey, ServiceInstanceAggregationKey, SpanMetrics,
  KeyedTransactionMetrics, KeyedServiceTransactionMetrics, KeyedSpanMetrics, ServiceInstanceMetrics,
  CombinedMetrics,
}
use apm_aggregation.Models.Env.{Env}
use apm_aggregation.Hash.{hash_service_key, hash_service_instance_key}
use apm_aggregation.Codec.Key.{CombinedMetricsKey}
use apm_aggregation.Aggregator.State.{truncate}
use apm_aggregation.Timestamps.{time_to_pb_timestamp}
use apm_aggregation.Converter.Partitions.{EventMetricsBuilder}
use apm_aggregation.Converter.Event.{ApmEvent, Floats}
use apm_aggregation.Converter.Builders.{BuilderMetrics, Builders, Partitioned, process_event}

-- The error on labels, a panic, or the pairs.
pub data Produced (F : Type 0) : Type 0 where
  bad_labels : Produced F
  panics : Produced F
  produced : List (CombinedMetricsKey × CombinedMetrics F) → Produced F

abbrev pub transaction_slice :
    Option TransactionAggregationKey → HdrHistogram → List KeyedTransactionMetrics
transaction_slice none h = []
transaction_slice (some k) h =
    record { key = k; metrics = some (record { histogram = some h }) } ∷ []

module _ {F : Type 0} where
  abbrev pub service_transaction_slice :
      Option (ServiceTransactionAggregationKey × F × F)
      → HdrHistogram
      → List (KeyedServiceTransactionMetrics F)
  service_transaction_slice none h = []
  service_transaction_slice (some (k, failures, successes)) h =
      record {
        key = k;
        metrics =
            some
              (record { histogram = some h; failure_count = failures; success_count = successes });
      }
      ∷ []

  abbrev pub keyed_span : SpanAggregationKey × SpanMetrics F → KeyedSpanMetrics F
  keyed_span (k, m) = record { key = k; metrics = some m }

  unfoldable pub instance_metrics : BuilderMetrics F → ServiceInstanceMetrics F
  instance_metrics mb = record {
    transaction_metrics = transaction_slice mb.transaction mb.histogram;
    service_transaction_metrics = service_transaction_slice mb.service_transaction mb.histogram;
    span_metrics = map keyed_span mb.spans;
  }

  unfoldable pub service_aggregation_key : ApmEvent F → ℕ → ServiceAggregationKey
  unfolding truncate time_to_pb_timestamp
  service_aggregation_key e interval = record {
    timestamp = time_to_pb_timestamp (truncate e.timestamp interval);
    service_name = e.service_name;
    service_environment = e.service_environment;
    service_language_name = e.service_language_name;
    agent_name = e.agent_name;
  }

  -- The one message of `pmb.combinedMetrics` as it is for a builder, of one service and one instance.
  unfoldable pub combined_metrics :
      ServiceAggregationKey
      → ServiceInstanceAggregationKey
      → F
      → ℕ
      → BuilderMetrics F
      → CombinedMetrics F
  unfolding instance_metrics
  combined_metrics sk sik events_total youngest mb = record {
    service_metrics =
        record {
          key = sk;
          metrics = some (record {
            service_instance_metrics =
                record { key = sik; metrics = some (instance_metrics mb) } ∷ [];
            overflow_groups = none;
          });
        }
        ∷ [];
    overflow_services = none;
    overflow_service_instances_estimator = [];
    events_total = events_total;
    youngest_event_timestamp = youngest;
  }

  -- The pair of a builder.
  abbrev pub pair :
      CombinedMetricsKey
      → ServiceAggregationKey
      → ServiceInstanceAggregationKey
      → F
      → ℕ
      → EventMetricsBuilder (BuilderMetrics F)
      → CombinedMetricsKey × CombinedMetrics F
  pair unpartitioned sk sik events_total youngest b = (
    record unpartitioned { partition_id = b.partition },
    combined_metrics sk sik events_total youngest b.metrics,
  )

module _ {F S D : Type 0} (env : Env F S D) (f : Floats F) (lib : Slices Bar) where
  unfoldable pub get_partitioned_metrics_builder :
      ServiceAggregationKey → ServiceInstanceAggregationKey → ℕ → HdrHistogram → Partitioned D
  unfolding hash_service_key hash_service_instance_key
  get_partitioned_metrics_builder sk sik partitions old = record {
    service_instance_hash = hash_service_instance_key env (hash_service_key env env.digest sk) sik;
    partitions = partitions;
    old_histogram = old;
  }

  abbrev pub paired :
      ApmEvent F
      → CombinedMetricsKey
      → ServiceAggregationKey
      → ServiceInstanceAggregationKey
      → Option (Builders F)
      → Produced F
  paired e k sk sik none = panics
  paired e k sk sik (some bs) =
      produced (map (pair k sk sik (f.share (length bs)) (time_to_pb_timestamp e.received)) bs)

  abbrev pub labelled :
      ApmEvent F → CombinedMetricsKey → ℕ → HdrHistogram → Option Text → Produced F
  labelled e k partitions old none = bad_labels
  labelled e k partitions old (some labels) =
      let sk = service_aggregation_key e k.interval in
      let sik : ServiceInstanceAggregationKey = record { global_labels_str = labels } in
      let p = get_partitioned_metrics_builder sk sik partitions old in
      paired e k sk sik (process_event env f lib p e [])

  -- `labels e` is what `marshalEventGlobalLabels` gives, `none` its error.
  unfoldable pub event_to_combined_metrics :
      (ApmEvent F → Option Text) → ApmEvent F → CombinedMetricsKey → ℕ → HdrHistogram → Produced F
  unfolding service_aggregation_key get_partitioned_metrics_builder process_event combined_metrics
      time_to_pb_timestamp
  event_to_combined_metrics labels e unpartitioned partitions old =
      labelled e unpartitioned partitions old (labels e)
