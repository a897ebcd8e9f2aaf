-- ===== src/Models/Keys.antt =====
-- The aggregation keys of aggregators/models.go, comparable structs that index Go maps, and the
-- limits. A time.Time in a key is an instant, the nanoseconds since Go's zero time; the keys that
-- the code compares all have their time in UTC, from PBTimestampToTime.
use Prim.Native.Nat.{ℕ}
use mathlib.Core.Bool.{Bool}
use native.Mathlib.Decide.{ℕ_discrete}
use apm_aggregation.Pb.{Text}

pub record Limits : Type 0 where
  pub max_services : ℕ
  pub max_service_instance_groups_per_service : ℕ
  pub max_span_groups : ℕ
  pub max_span_groups_per_service : ℕ
  pub max_transaction_groups : ℕ
  pub max_transaction_groups_per_service : ℕ
  pub max_service_transaction_groups : ℕ
  pub max_service_transaction_groups_per_service : ℕ

pub record ServiceAggregationKey : Type 0 where
  pub timestamp : ℕ
  pub service_name : Text
  pub service_environment : Text
  pub service_language_name : Text
  pub agent_name : Text

pub record ServiceInstanceAggregationKey : Type 0 where
  pub global_labels_str : Text

pub record TransactionAggregationKey : Type 0 where
  pub trace_root : Bool
  pub container_id : Text
  pub kubernetes_pod_name : Text
  pub service_version : Text
  pub service_node_name : Text
  pub service_runtime_name : Text
  pub service_runtime_version : Text
  pub service_language_version : Text
  pub host_hostname : Text
  pub host_name : Text
  pub host_os_platform : Text
  pub event_outcome : Text
  pub transaction_name : Text
  pub transaction_type : Text
  pub transaction_result : Text
  pub faas_coldstart : ℕ
  pub faas_id : Text
  pub faas_name : Text
  pub faas_version : Text
  pub faas_trigger_type : Text
  pub cloud_provider : Text
  pub cloud_region : Text
  pub cloud_availability_zone : Text
  pub cloud_service_name : Text
  pub cloud_account_id : Text
  pub cloud_account_name : Text
  pub cloud_machine_type : Text
  pub cloud_project_id : Text
  pub cloud_project_name : Text

pub record ServiceTransactionAggregationKey : Type 0 where
  pub transaction_type : Text

pub record SpanAggregationKey : Type 0 where
  pub span_name : Text
  pub outcome : Text
  pub target_type : Text
  pub target_name : Text
  pub resource : Text

pub ServiceAggregationKey-discrete : Discrete ServiceAggregationKey
ServiceAggregationKey-discrete = hlevel ℕ_discrete

pub ServiceInstanceAggregationKey-discrete : Discrete ServiceInstanceAggregationKey
ServiceInstanceAggregationKey-discrete = hlevel ℕ_discrete

pub TransactionAggregationKey-discrete : Discrete TransactionAggregationKey
TransactionAggregationKey-discrete = hlevel ℕ_discrete

pub ServiceTransactionAggregationKey-discrete : Discrete ServiceTransactionAggregationKey
ServiceTransactionAggregationKey-discrete = hlevel ℕ_discrete

pub SpanAggregationKey-discrete : Discrete SpanAggregationKey
SpanAggregationKey-discrete = hlevel ℕ_discrete
