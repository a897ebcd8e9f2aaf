-- ===== src/Pb.antt =====
-- The protobuf messages of proto/aggregation.proto as aggregationpb/aggregation.pb.go declares them.
-- A nil message pointer is `none`; repeated fields are lists; strings and bytes are lists of bytes;
-- a double is a value of the type `F`.
use apm_aggregation.Base.{ℕ, Bool, Option, List}

abbrev pub Text : Type 0
Text = List ℕ

pub record HdrHistogram : Type 0 where
  pub lowest_trackable_value : ℕ
  pub highest_trackable_value : ℕ
  pub significant_figures : ℕ
  pub counts : List ℕ
  pub buckets : List ℕ

pub record ServiceAggregationKey : Type 0 where
  pub timestamp : ℕ
  pub service_name : Text
  pub service_environment : Text
  pub service_language_name : Text
  pub agent_name : Text

pub record ServiceInstanceAggregationKey : Type 0 where
  pub global_labels_str : Text

pub record TransactionAggregationKey : Type 0 where
  pub trace_root : Bool
  pub container_id : Text
  pub kubernetes_pod_name : Text
  pub service_version : Text
  pub service_node_name : Text
  pub service_runtime_name : Text
  pub service_runtime_version : Text
  pub service_language_version : Text
  pub host_hostname : Text
  pub host_name : Text
  pub host_os_platform : Text
  pub event_outcome : Text
  pub transaction_name : Text
  pub transaction_type : Text
  pub transaction_result : Text
  pub faas_coldstart : ℕ
  pub faas_id : Text
  pub faas_name : Text
  pub faas_version : Text
  pub faas_trigger_type : Text
  pub cloud_provider : Text
  pub cloud_region : Text
  pub cloud_availability_zone : Text
  pub cloud_service_name : Text
  pub cloud_account_id : Text
  pub cloud_account_name : Text
  pub cloud_machine_type : Text
  pub cloud_project_id : Text
  pub cloud_project_name : Text

pub record ServiceTransactionAggregationKey : Type 0 where
  pub transaction_type : Text

pub record SpanAggregationKey : Type 0 where
  pub span_name : Text
  pub outcome : Text
  pub target_type : Text
  pub target_name : Text
  pub resource : Text

pub record TransactionMetrics : Type 0 where
  pub histogram : Option HdrHistogram

pub record KeyedTransactionMetrics : Type 0 where
  pub key : TransactionAggregationKey
  pub metrics : Option TransactionMetrics

pub record ServiceTransactionMetrics (F : Type 0) : Type 0 where
  pub histogram : Option HdrHistogram
  pub failure_count : F
  pub success_count : F

pub record KeyedServiceTransactionMetrics (F : Type 0) : Type 0 where
  pub key : ServiceTransactionAggregationKey
  pub metrics : Option (ServiceTransactionMetrics F)

pub record SpanMetrics (F : Type 0) : Type 0 where
  pub count : F
  pub sum : F

pub record KeyedSpanMetrics (F : Type 0) : Type 0 where
  pub key : SpanAggregationKey
  pub metrics : Option (SpanMetrics F)

pub record Overflow (F : Type 0) : Type 0 where
  pub overflow_transactions : Option TransactionMetrics
  pub overflow_service_transactions : Option (ServiceTransactionMetrics F)
  pub overflow_spans : Option (SpanMetrics F)
  pub overflow_transactions_estimator : Text
  pub overflow_service_transactions_estimator : Text
  pub overflow_spans_estimator : Text

pub record ServiceInstanceMetrics (F : Type 0) : Type 0 where
  pub transaction_metrics : List KeyedTransactionMetrics
  pub service_transaction_metrics : List (KeyedServiceTransactionMetrics F)
  pub span_metrics : List (KeyedSpanMetrics F)

pub record KeyedServiceInstanceMetrics (F : Type 0) : Type 0 where
  pub key : ServiceInstanceAggregationKey
  pub metrics : Option (ServiceInstanceMetrics F)

pub record ServiceMetrics (F : Type 0) : Type 0 where
  pub service_instance_metrics : List (KeyedServiceInstanceMetrics F)
  pub overflow_groups : Option (Overflow F)

pub record KeyedServiceMetrics (F : Type 0) : Type 0 where
  pub key : ServiceAggregationKey
  pub metrics : Option (ServiceMetrics F)

pub record CombinedMetrics (F : Type 0) : Type 0 where
  pub service_metrics : List (KeyedServiceMetrics F)
  pub overflow_services : Option (Overflow F)
  pub overflow_service_instances_estimator : Text
  pub events_total : F
  pub youngest_event_timestamp : ℕ
