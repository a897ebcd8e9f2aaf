-- ===== src/Hash.antt =====
-- The hashes of aggregation keys, aggregators/internal/protohash/generated.go. The digest of xxhash
-- is a parameter; a byte string is written as it is, a number in little-endian order.
use Prim.Native.Nat.{ℕ}
use apm_aggregation.Base.{zero, suc, ◌/◌, ◌%◌, Bool, true, false, List, [], ◌∷◌}
use apm_aggregation.Pb.{
  ServiceAggregationKey, ServiceInstanceAggregationKey, TransactionAggregationKey,
  ServiceTransactionAggregationKey, SpanAggregationKey,
}
use apm_aggregation.Models.Env.{Env}

-- `binary.LittleEndian`, over `k` bytes.
unfoldable pub little_endian : ℕ → ℕ → List ℕ
little_endian zero v = []
little_endian (suc k) v = v % 256 ∷ little_endian k (v / 256)

module _ {F S D : Type 0} (env : Env F S D) where
  unfoldable pub write_uint32 : D → ℕ → D
  unfolding little_endian
  write_uint32 h v = env.write h (little_endian 4 v)

  unfoldable pub write_uint64 : D → ℕ → D
  unfolding little_endian
  write_uint64 h v = env.write h (little_endian 8 v)

  abbrev write_all : D → List (List ℕ) → D
  write_all h [] = h
  write_all h (s ∷ ss) = write_all (env.write h s) ss

  unfoldable pub hash_service_key : D → ServiceAggregationKey → D
  unfolding write_uint64
  hash_service_key h k =
      write_all (write_uint64 h k.timestamp)
        (k.service_name ∷ k.service_environment ∷ k.service_language_name ∷ k.agent_name ∷ [])

  unfoldable pub hash_service_instance_key : D → ServiceInstanceAggregationKey → D
  hash_service_instance_key h k = env.write h k.global_labels_str

  unfoldable pub hash_service_transaction_key : D → ServiceTransactionAggregationKey → D
  hash_service_transaction_key h k = env.write h k.transaction_type

  unfoldable pub hash_span_key : D → SpanAggregationKey → D
  hash_span_key h k =
      write_all h (k.span_name ∷ k.outcome ∷ k.target_type ∷ k.target_name ∷ k.resource ∷ [])

  abbrev write_trace_root : D → Bool → D
  write_trace_root h true = env.write h (b'1' ∷ [])
  write_trace_root h false = h

  unfoldable pub hash_transaction_key : D → TransactionAggregationKey → D
  unfolding write_uint32
  hash_transaction_key h k =
      let before = write_all (write_trace_root h k.trace_root) (
        k.container_id ∷ k.kubernetes_pod_name ∷ k.service_version ∷ k.service_node_name
        ∷ k.service_runtime_name ∷ k.service_runtime_version ∷ k.service_language_version
        ∷ k.host_hostname ∷ k.host_name ∷ k.host_os_platform ∷ k.event_outcome ∷ k.transaction_name
        ∷ k.transaction_type ∷ k.transaction_result ∷ []) in
      write_all (write_uint32 before k.faas_coldstart) (
        k.faas_id ∷ k.faas_name ∷ k.faas_version ∷ k.faas_trigger_type ∷ k.cloud_provider
        ∷ k.cloud_region ∷ k.cloud_availability_zone ∷ k.cloud_service_name ∷ k.cloud_account_id
        ∷ k.cloud_account_name ∷ k.cloud_machine_type ∷ k.cloud_project_id ∷ k.cloud_project_name
        ∷ [])
