-- ===== src/Models.antt =====
-- The state of aggregators/models.go. `F` is float64 and `S` a hyperloglog sketch; a nil pointer is
-- `none`; a map is an association list (a nil map and an empty one read alike).
pub mod Keys
pub mod Env
use apm_aggregation.Base.{ℕ, Option, none, List, []}
use apm_aggregation.Pb.{
  TransactionMetrics, KeyedTransactionMetrics, KeyedServiceTransactionMetrics, KeyedSpanMetrics,
}
use apm_aggregation.Pb
use Keys.{
  ServiceAggregationKey, ServiceInstanceAggregationKey, TransactionAggregationKey,
  ServiceTransactionAggregationKey, SpanAggregationKey,
}

pub record OverflowTransaction (S : Type 0) : Type 0 where
  pub metrics : Option TransactionMetrics
  pub estimator : Option S

pub record OverflowServiceTransaction (F S : Type 0) : Type 0 where
  pub metrics : Option (Pb.ServiceTransactionMetrics F)
  pub estimator : Option S

pub record OverflowSpan (F S : Type 0) : Type 0 where
  pub metrics : Option (Pb.SpanMetrics F)
  pub estimator : Option S

pub record Overflow (F S : Type 0) : Type 0 where
  pub overflow_transaction : OverflowTransaction S
  pub overflow_service_transaction : OverflowServiceTransaction F S
  pub overflow_span : OverflowSpan F S

pub record ServiceInstanceMetrics (F : Type 0) : Type 0 where
  pub transaction_groups : List (TransactionAggregationKey × KeyedTransactionMetrics)
  pub service_transaction_groups :
      List (ServiceTransactionAggregationKey × KeyedServiceTransactionMetrics F)
  pub span_groups : List (SpanAggregationKey × KeyedSpanMetrics F)

pub record ServiceMetrics (F S : Type 0) : Type 0 where
  pub service_instance_groups : List (ServiceInstanceAggregationKey × ServiceInstanceMetrics F)
  pub overflow_groups : Overflow F S

pub record CombinedMetrics (F S : Type 0) : Type 0 where
  pub services : List (ServiceAggregationKey × ServiceMetrics F S)
  pub overflow_services : Overflow F S
  pub overflow_service_instances_estimator : Option S
  pub events_total : F
  pub youngest_event_timestamp : ℕ

-- The zero values.
abbrev pub no_overflow : (F S : Type 0) → Overflow F S
no_overflow F S = record {
  overflow_transaction = record { metrics = none; estimator = none };
  overflow_service_transaction = record { metrics = none; estimator = none };
  overflow_span = record { metrics = none; estimator = none };
}
