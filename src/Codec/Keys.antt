-- ===== src/Codec/Keys.antt =====
-- The conversions of aggregation keys to and from protobuf, aggregators/codec.go: each field is
-- copied by name, and the time of a service key is converted.
use apm_aggregation.Models.Keys.{
  ServiceAggregationKey, ServiceInstanceAggregationKey, TransactionAggregationKey,
  ServiceTransactionAggregationKey, SpanAggregationKey,
}
use apm_aggregation.Pb
use apm_aggregation.Timestamps.{time_to_pb_timestamp, pb_timestamp_to_time}

unfoldable pub service_key_to_proto : ServiceAggregationKey → Pb.ServiceAggregationKey
unfolding time_to_pb_timestamp
service_key_to_proto k = record {
  timestamp = time_to_pb_timestamp k.timestamp;
  service_name = k.service_name;
  service_environment = k.service_environment;
  service_language_name = k.service_language_name;
  agent_name = k.agent_name;
}

unfoldable pub service_key_from_proto : Pb.ServiceAggregationKey → ServiceAggregationKey
unfolding pb_timestamp_to_time
service_key_from_proto k = record {
  timestamp = pb_timestamp_to_time k.timestamp;
  service_name = k.service_name;
  service_environment = k.service_environment;
  service_language_name = k.service_language_name;
  agent_name = k.agent_name;
}

unfoldable pub service_instance_key_to_proto :
    ServiceInstanceAggregationKey → Pb.ServiceInstanceAggregationKey
service_instance_key_to_proto k = record { global_labels_str = k.global_labels_str }

unfoldable pub service_instance_key_from_proto :
    Pb.ServiceInstanceAggregationKey → ServiceInstanceAggregationKey
service_instance_key_from_proto k = record { global_labels_str = k.global_labels_str }

unfoldable pub transaction_key_to_proto : TransactionAggregationKey → Pb.TransactionAggregationKey
transaction_key_to_proto k = record {
  trace_root = k.trace_root;
  container_id = k.container_id;
  kubernetes_pod_name = k.kubernetes_pod_name;
  service_version = k.service_version;
  service_node_name = k.service_node_name;
  service_runtime_name = k.service_runtime_name;
  service_runtime_version = k.service_runtime_version;
  service_language_version = k.service_language_version;
  host_hostname = k.host_hostname;
  host_name = k.host_name;
  host_os_platform = k.host_os_platform;
  event_outcome = k.event_outcome;
  transaction_name = k.transaction_name;
  transaction_type = k.transaction_type;
  transaction_result = k.transaction_result;
  faas_coldstart = k.faas_coldstart;
  faas_id = k.faas_id;
  faas_name = k.faas_name;
  faas_version = k.faas_version;
  faas_trigger_type = k.faas_trigger_type;
  cloud_provider = k.cloud_provider;
  cloud_region = k.cloud_region;
  cloud_availability_zone = k.cloud_availability_zone;
  cloud_service_name = k.cloud_service_name;
  cloud_account_id = k.cloud_account_id;
  cloud_account_name = k.cloud_account_name;
  cloud_machine_type = k.cloud_machine_type;
  cloud_project_id = k.cloud_project_id;
  cloud_project_name = k.cloud_project_name;
}

unfoldable pub transaction_key_from_proto : Pb.TransactionAggregationKey → TransactionAggregationKey
transaction_key_from_proto k = record {
  trace_root = k.trace_root;
  container_id = k.container_id;
  kubernetes_pod_name = k.kubernetes_pod_name;
  service_version = k.service_version;
  service_node_name = k.service_node_name;
  service_runtime_name = k.service_runtime_name;
  service_runtime_version = k.service_runtime_version;
  service_language_version = k.service_language_version;
  host_hostname = k.host_hostname;
  host_name = k.host_name;
  host_os_platform = k.host_os_platform;
  event_outcome = k.event_outcome;
  transaction_name = k.transaction_name;
  transaction_type = k.transaction_type;
  transaction_result = k.transaction_result;
  faas_coldstart = k.faas_coldstart;
  faas_id = k.faas_id;
  faas_name = k.faas_name;
  faas_version = k.faas_version;
  faas_trigger_type = k.faas_trigger_type;
  cloud_provider = k.cloud_provider;
  cloud_region = k.cloud_region;
  cloud_availability_zone = k.cloud_availability_zone;
  cloud_service_name = k.cloud_service_name;
  cloud_account_id = k.cloud_account_id;
  cloud_account_name = k.cloud_account_name;
  cloud_machine_type = k.cloud_machine_type;
  cloud_project_id = k.cloud_project_id;
  cloud_project_name = k.cloud_project_name;
}

unfoldable pub service_transaction_key_to_proto :
    ServiceTransactionAggregationKey → Pb.ServiceTransactionAggregationKey
service_transaction_key_to_proto k = record { transaction_type = k.transaction_type }

unfoldable pub service_transaction_key_from_proto :
    Pb.ServiceTransactionAggregationKey → ServiceTransactionAggregationKey
service_transaction_key_from_proto k = record { transaction_type = k.transaction_type }

unfoldable pub span_key_to_proto : SpanAggregationKey → Pb.SpanAggregationKey
span_key_to_proto k = record {
  span_name = k.span_name;
  outcome = k.outcome;
  target_type = k.target_type;
  target_name = k.target_name;
  resource = k.resource;
}

unfoldable pub span_key_from_proto : Pb.SpanAggregationKey → SpanAggregationKey
span_key_from_proto k = record {
  span_name = k.span_name;
  outcome = k.outcome;
  target_type = k.target_type;
  target_name = k.target_name;
  resource = k.resource;
}
