-- ===== src/Converter/EventTests.antt =====
-- The conversion of a transaction with a dropped span, and of a span, at concrete values.
use apm_aggregation.Base.{
  ℕ, ◌*◌, ◌%◌, ◌^◌, ◌<◌, ◌≤◌, ◌≡◌, refl, Option, none, some, List, [], ◌∷◌, arith,
}
use apm_aggregation.Base.Tests.{◌==◌}
use apm_aggregation.Base.Lists.{length, replicate}
use apm_aggregation.Base.Search.{scanning}
use apm_aggregation.Bars.{Bar}
use apm_aggregation.Pb.{Text, HdrHistogram}
use apm_aggregation.Pb
use apm_aggregation.Models.Env.{listing}
use apm_aggregation.Models.Keys.{Limits}
use apm_aggregation.Codec.Key.{CombinedMetricsKey}
use apm_aggregation.Merger.Combined.{CombinedMetricsMerger}
use apm_aggregation.Merger.Combined.Invariant.{Kind, service_size, total_limit}
use apm_aggregation.Merger.Combined.Found.{size_map}
use apm_aggregation.Merger.Combined.ServiceStep.{merger_count}
use apm_aggregation.Merger.Combined.Whole.{new_merger, merge_all}
use apm_aggregation.Converter.Event.{
  transaction_event, span_event, DroppedSpanStats, ApmEvent, Floats,
}
use apm_aggregation.Converter.Produce.{produced, event_to_combined_metrics}
use apm_aggregation.Converter.Outcome.{event_count}
use apm_aggregation.Converter.Produced.{event_to_combined_metrics-Produces}
use apm_aggregation.Converter.Pairs.{Produces}
use apm_aggregation.Converter.Aggregated.{converted, events_count, merge_all-converted}

scaled-lt : (n : ℕ) → (n * 1000) % 2 ^ 64 < 2 ^ 64
scaled-lt n = omega arith

-- Counts as floats.
abbrev counting : Floats ℕ
counting = record {
  zero = 0;
  not_positive = λ n. n == 0;
  mul = ◌*◌;
  of_uint32 = λ n. n;
  of_uint64 = λ n. n;
  of_int64 = λ n. n;
  scaled = λ n. (n * 1000) % 2 ^ 64;
  scaled-lt = scaled-lt;
  milliseconds = λ n. n * 1000000;
  share = λ n. 1;
}

abbrev dropped : DroppedSpanStats
dropped = record {
  destination_service_resource = 100 ∷ 98 ∷ [];
  service_target_type = [];
  service_target_name = [];
  outcome = [];
  duration_count = 2;
  duration_sum = 5000;
}

abbrev transaction : ApmEvent ℕ
transaction = record {
  type_ = transaction_event;
  timestamp = 63835596840000000000;
  received = 63835596841000000000;
  parent_id = [];
  duration = 250000000;
  duration-lt = omega arith;
  outcome = [];
  transaction_name = 103 ∷ 111 ∷ [];
  transaction_type = 119 ∷ [];
  transaction_result = [];
  transaction_representative_count = 3;
  dropped_spans_stats = dropped ∷ [];
  span_name = [];
  span_representative_count = 0;
  span_composite = none;
  span_destination_service_resource = [];
  service_name = 115 ∷ [];
  service_environment = [];
  service_version = [];
  service_node_name = [];
  service_runtime_name = [];
  service_runtime_version = [];
  service_language_name = [];
  service_language_version = [];
  service_target = none;
  agent_name = [];
  container_id = [];
  kubernetes_pod_name = [];
  host_hostname = [];
  host_name = [];
  host_os_platform = [];
  faas = none;
  cloud_provider = [];
  cloud_region = [];
  cloud_availability_zone = [];
  cloud_service_name = [];
  cloud_account_id = [];
  cloud_account_name = [];
  cloud_machine_type = [];
  cloud_project_id = [];
  cloud_project_name = [];
}

abbrev span : ApmEvent ℕ
span = record transaction {
  type_ = span_event;
  span_name = 113 ∷ [];
  span_representative_count = 2;
  span_destination_service_resource = 100 ∷ 98 ∷ [];
}

abbrev no_labels : ApmEvent ℕ → Option Text
no_labels e = some []

abbrev given : CombinedMetricsKey
given = record {
  interval = 60000000000;
  unix = 1700000040;
  nanosecond = 0;
  partition_id = 0;
  id = replicate 16 7;
}

-- The histogram of a builder from the pool.
abbrev used : HdrHistogram
used = record {
  lowest_trackable_value = 1;
  highest_trackable_value = 2;
  significant_figures = 3;
  counts = 9 ∷ [];
  buckets = 9 ∷ [];
}

abbrev limits : Limits
limits = record {
  max_services = 1;
  max_service_instance_groups_per_service = 1;
  max_span_groups = 4;
  max_span_groups_per_service = 2;
  max_transaction_groups = 4;
  max_transaction_groups_per_service = 1;
  max_service_transaction_groups = 4;
  max_service_transaction_groups_per_service = 1;
}

event_to_combined_metrics-Produces_example :
    (cms : List (CombinedMetricsKey × Pb.CombinedMetrics ℕ)) × (event_to_combined_metrics listing
        counting
        (scanning Bar)
        no_labels
        transaction
        given
        7
        used
      ≡ produced cms)
    × Produces 7 given (event_count counting transaction transaction_event) cms
event_to_combined_metrics-Produces_example =
    event_to_combined_metrics-Produces listing counting (scanning Bar) no_labels transaction given 7
      used [] refl (omega arith) (omega arith)

merge_all-converted_example :
    (m' : CombinedMetricsMerger ℕ (List ℕ)) × (merge_all listing
        (λ n. n)
        (λ n. n)
        (new_merger listing (λ n. n) (λ n. n) limits)
        (converted listing counting (scanning Bar) no_labels 7 used given (transaction ∷ span ∷ []))
      ≡ some m')
    × (length m'.metrics.services ≤ 1)
    × ((j : Kind) → size_map (service_size j) m'.metrics.services ≤ total_limit j limits)
    × ((j : Kind) (q : ℕ)
        → merger_count j q m'.metrics
          ≡ events_count counting no_labels j q (transaction ∷ span ∷ []))
merge_all-converted_example =
    merge_all-converted listing counting (scanning Bar) no_labels 7 used (λ n. n) (λ n. n) limits
      given (transaction ∷ span ∷ []) (omega arith) (omega arith)
