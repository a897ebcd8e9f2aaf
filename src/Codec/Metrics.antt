-- ===== src/Codec/Metrics.antt =====
-- `ToProto` of combined metrics, service metrics, service instance metrics and overflows,
-- aggregators/codec.go. A range over a map visits the entries of the association list; Go's order
-- may be any. A message from a pool is the zero message.
pub mod Written
pub mod Counts
use apm_aggregation.Base.{Bool, true, false, Option, none, some, List, [], ◌∷◌, map}
use apm_aggregation.Base.Tests.{if◌then◌else◌}
use apm_aggregation.Pb
use apm_aggregation.Pb.{Text}
use apm_aggregation.Models.{
  OverflowTransaction, OverflowServiceTransaction, OverflowSpan, Overflow, ServiceInstanceMetrics,
  ServiceMetrics, CombinedMetrics,
}
use apm_aggregation.Models.Env.{Env}
use apm_aggregation.Codec.Keys.{service_key_to_proto, service_instance_key_to_proto}
use apm_aggregation.Merger.Overflow.{hll_bytes}

abbrev pub is_nil {ℓ} : {A : Type ℓ} → Option A → Bool
is_nil none = true
is_nil (some a) = false

-- `Empty` of the three overflow buckets.
abbrev pub overflow_transaction_empty : {S : Type 0} → OverflowTransaction S → Bool
overflow_transaction_empty o = is_nil o.estimator

abbrev pub overflow_service_transaction_empty :
    {F S : Type 0} → OverflowServiceTransaction F S → Bool
overflow_service_transaction_empty o = is_nil o.estimator

abbrev pub overflow_span_empty : {F S : Type 0} → OverflowSpan F S → Bool
overflow_span_empty o = is_nil o.estimator

-- The values of a map.
abbrev pub values : {K V : Type 0} → List (K × V) → List V
values [] = []
values ((k, v) ∷ m) = v ∷ values m

unfoldable pub service_instance_metrics_to_proto :
    {F : Type 0} → ServiceInstanceMetrics F → Pb.ServiceInstanceMetrics F
service_instance_metrics_to_proto m = record {
  transaction_metrics = values m.transaction_groups;
  service_transaction_metrics = values m.service_transaction_groups;
  span_metrics = values m.span_groups;
}

module _ {F S D : Type 0} (env : Env F S D) where
  unfoldable pub overflow_to_proto : Overflow F S → Pb.Overflow F
  unfolding hll_bytes
  overflow_to_proto o =
      let t = o.overflow_transaction in
      let s = o.overflow_service_transaction in
      let p = o.overflow_span in
      record {
        overflow_transactions = if overflow_transaction_empty t then none else t.metrics;
        overflow_service_transactions =
            if overflow_service_transaction_empty s then none else s.metrics;
        overflow_spans = if overflow_span_empty p then none else p.metrics;
        overflow_transactions_estimator =
            if overflow_transaction_empty t then [] else hll_bytes env t.estimator;
        overflow_service_transactions_estimator =
            if overflow_service_transaction_empty s then [] else hll_bytes env s.estimator;
        overflow_spans_estimator = if overflow_span_empty p then [] else hll_bytes env p.estimator;
      }

  unfoldable pub service_metrics_to_proto : ServiceMetrics F S → Pb.ServiceMetrics F
  unfolding service_instance_metrics_to_proto service_instance_key_to_proto overflow_to_proto
  service_metrics_to_proto m = record {
    service_instance_metrics =
        map
          (λ (k, sim). record {
            key = service_instance_key_to_proto k;
            metrics = some (service_instance_metrics_to_proto sim);
          })
          m.service_instance_groups;
    overflow_groups = some (overflow_to_proto m.overflow_groups);
  }

  unfoldable pub combined_metrics_to_proto : CombinedMetrics F S → Pb.CombinedMetrics F
  unfolding service_metrics_to_proto service_key_to_proto overflow_to_proto hll_bytes
  combined_metrics_to_proto m =
      let nil = is_nil m.overflow_service_instances_estimator in
      record {
        service_metrics =
            map
              (λ (k, sm). record {
                key = service_key_to_proto k;
                metrics = some (service_metrics_to_proto sm);
              })
              m.services;
        overflow_services = if nil then none else some (overflow_to_proto m.overflow_services);
        overflow_service_instances_estimator =
            if nil then [] else hll_bytes env m.overflow_service_instances_estimator;
        events_total = m.events_total;
        youngest_event_timestamp = m.youngest_event_timestamp;
      }
