-- ===== src/Converter/Event.antt =====
-- What aggregators/converter.go reads of an `APMEvent` of github.com/elastic/apm-data, and the keys and
-- span metrics that it makes of it. Getters of nil messages give empty values, so that a nil message is
-- only told apart (`none`) where the code compares it with nil. A duration is an int64 of nanoseconds,
-- a time the nanoseconds since Go's zero time.
use apm_aggregation.Base.{ℕ, Bool, true, false, Option, none, some, List, [], ◌∷◌, ◌<◌, ◌^◌}
use apm_aggregation.Pb.{
  Text, TransactionAggregationKey, ServiceTransactionAggregationKey, SpanAggregationKey,
  SpanMetrics,
}
use apm_aggregation.Nullable.{parse_bool_ptr}

pub data EventType : Type 0 where
  transaction_event : EventType
  span_event : EventType
  other_event : EventType

pub record Faas : Type 0 where
  pub id : Text
  pub cold_start : Option Bool
  pub trigger_type : Text
  pub name : Text
  pub version : Text

pub record Target : Type 0 where
  pub type_ : Text
  pub name : Text

pub record Composite (F : Type 0) : Type 0 where
  pub count : ℕ
  pub sum : F

pub record DroppedSpanStats : Type 0 where
  pub destination_service_resource : Text
  pub service_target_type : Text
  pub service_target_name : Text
  pub outcome : Text
  pub duration_count : ℕ
  pub duration_sum : ℕ

pub record ApmEvent (F : Type 0) : Type 0 where
  pub type_ : EventType
  pub timestamp : ℕ
  pub received : ℕ
  pub parent_id : Text
  pub duration : ℕ
  pub duration-lt : duration < 2 ^ 64
  pub outcome : Text
  pub transaction_name : Text
  pub transaction_type : Text
  pub transaction_result : Text
  pub transaction_representative_count : F
  pub dropped_spans_stats : List DroppedSpanStats
  pub span_name : Text
  pub span_representative_count : F
  pub span_composite : Option (Composite F)
  pub span_destination_service_resource : Text
  pub service_name : Text
  pub service_environment : Text
  pub service_version : Text
  pub service_node_name : Text
  pub service_runtime_name : Text
  pub service_runtime_version : Text
  pub service_language_name : Text
  pub service_language_version : Text
  pub service_target : Option Target
  pub agent_name : Text
  pub container_id : Text
  pub kubernetes_pod_name : Text
  pub host_hostname : Text
  pub host_name : Text
  pub host_os_platform : Text
  pub faas : Option Faas
  pub cloud_provider : Text
  pub cloud_region : Text
  pub cloud_availability_zone : Text
  pub cloud_service_name : Text
  pub cloud_account_id : Text
  pub cloud_account_name : Text
  pub cloud_machine_type : Text
  pub cloud_project_id : Text
  pub cloud_project_name : Text

-- Float64 as the conversion uses it: `not_positive n` is `n <= 0`, `scaled n` is
-- `int64(math.Round(n * histogramCountScale))`, `milliseconds n` is
-- `time.Duration(n * float64(time.Millisecond))`, and `share n` is `1 / float64(n)`.
pub record Floats (F : Type 0) : Type 0 where
  pub zero : F
  pub not_positive : F → Bool
  pub mul : F → F → F
  pub of_uint32 : ℕ → F
  pub of_uint64 : ℕ → F
  pub of_int64 : ℕ → F
  pub scaled : F → ℕ
  pub scaled-lt : (n : F) → scaled n < 2 ^ 64
  pub milliseconds : F → ℕ
  pub share : ℕ → F

abbrev pub is_empty : Text → Bool
is_empty [] = true
is_empty (c ∷ cs) = false

-- The fields of a nil `Faas`.
abbrev pub no_faas : Faas
no_faas = record { id = []; cold_start = none; trigger_type = []; name = []; version = [] }

abbrev pub get_faas : Option Faas → Faas
get_faas none = no_faas
get_faas (some f) = f

abbrev pub get_target : Option Target → Target
get_target none = record { type_ = []; name = [] }
get_target (some t) = t

module _ {F : Type 0} where
  unfoldable pub set_transaction_key : ApmEvent F → TransactionAggregationKey
  unfolding parse_bool_ptr
  set_transaction_key e =
      let faas = get_faas e.faas in
      record {
        trace_root = is_empty e.parent_id;
        container_id = e.container_id;
        kubernetes_pod_name = e.kubernetes_pod_name;
        service_version = e.service_version;
        service_node_name = e.service_node_name;
        service_runtime_name = e.service_runtime_name;
        service_runtime_version = e.service_runtime_version;
        service_language_version = e.service_language_version;
        host_hostname = e.host_hostname;
        host_name = e.host_name;
        host_os_platform = e.host_os_platform;
        event_outcome = e.outcome;
        transaction_name = e.transaction_name;
        transaction_type = e.transaction_type;
        transaction_result = e.transaction_result;
        faas_coldstart = parse_bool_ptr faas.cold_start;
        faas_id = faas.id;
        faas_name = faas.name;
        faas_version = faas.version;
        faas_trigger_type = faas.trigger_type;
        cloud_provider = e.cloud_provider;
        cloud_region = e.cloud_region;
        cloud_availability_zone = e.cloud_availability_zone;
        cloud_service_name = e.cloud_service_name;
        cloud_account_id = e.cloud_account_id;
        cloud_account_name = e.cloud_account_name;
        cloud_machine_type = e.cloud_machine_type;
        cloud_project_id = e.cloud_project_id;
        cloud_project_name = e.cloud_project_name;
      }

  unfoldable pub set_service_transaction_key : ApmEvent F → ServiceTransactionAggregationKey
  set_service_transaction_key e = record { transaction_type = e.transaction_type }

  unfoldable pub set_span_key : ApmEvent F → SpanAggregationKey
  set_span_key e =
      let target = get_target e.service_target in
      record {
        span_name = e.span_name;
        outcome = e.outcome;
        target_type = target.type_;
        target_name = target.name;
        resource = e.span_destination_service_resource;
      }

  -- The count and the duration of a span.
  abbrev pub repeated : Floats F → ApmEvent F → Option (Composite F) → ℕ × ℕ
  repeated f e none = (1, e.duration)
  repeated f e (some c) = (c.count, f.milliseconds c.sum)

  unfoldable pub set_span_metrics : Floats F → ApmEvent F → F → SpanMetrics F
  set_span_metrics f e rep_count =
      let (count, duration) = repeated f e e.span_composite in
      record {
        count = f.mul (f.of_uint32 count) rep_count;
        sum = f.mul (f.of_int64 duration) rep_count;
      }

  unfoldable pub set_dropped_span_stats_metrics : Floats F → DroppedSpanStats → F → SpanMetrics F
  set_dropped_span_stats_metrics f dss rep_count = record {
    count = f.mul (f.of_uint64 dss.duration_count) rep_count;
    sum = f.mul (f.of_int64 dss.duration_sum) rep_count;
  }

-- The span name stays empty.
unfoldable pub set_dropped_span_stats_key : DroppedSpanStats → SpanAggregationKey
set_dropped_span_stats_key dss = record {
  span_name = [];
  outcome = dss.outcome;
  target_type = dss.service_target_type;
  target_name = dss.service_target_name;
  resource = dss.destination_service_resource;
}
