-- ===== src/Merger/Combined.antt =====
-- `mergeServiceInstanceGroups` of aggregators/merger.go, with the look-ups of services and service
-- instances and the shared constraints.
pub mod Services
pub mod Found
pub mod Invariant
pub mod InstanceStep
pub mod InstanceLoop
pub mod ServiceStep
pub mod Merge
pub mod Whole
mod Tests
use apm_aggregation.Base.{ℕ, Bool, true, false, Option, none, some, List, [], ◌∷◌}
use apm_aggregation.Base.Tests.{ltb, if◌then◌else◌}
use apm_aggregation.Base.Lists.{length}
use apm_aggregation.Base.Panic.{◌>>=◌}
use apm_aggregation.Base.Assoc.{lookup, insert}
use apm_aggregation.Constraint.{Constraint, new}
use apm_aggregation.Pb
use apm_aggregation.Models.{ServiceInstanceMetrics, ServiceMetrics, CombinedMetrics, no_overflow}
use apm_aggregation.Models.Env.{Env}
use apm_aggregation.Models.Keys.{
  Limits, ServiceAggregationKey, ServiceInstanceAggregationKey, ServiceAggregationKey-discrete,
  ServiceInstanceAggregationKey-discrete,
}
use apm_aggregation.Codec.Keys.{service_key_from_proto, service_instance_key_from_proto}
use apm_aggregation.Hash.{hash_service_key, hash_service_instance_key}
use apm_aggregation.Merger.Overflow.{
  insert_hash, merge_estimator, hll_sketch, merge_overflow, merge_to_overflow_from_sim,
}
use apm_aggregation.Merger.Groups.{
  merge_transaction_groups, merge_service_transaction_groups, merge_span_groups,
}

-- `constraints`, shared by all services.
pub record Constraints : Type 0 where
  pub total_transaction_groups : Constraint
  pub total_service_transaction_groups : Constraint
  pub total_span_groups : Constraint

unfoldable pub new_constraints : Limits → Constraints
unfolding new
new_constraints limits = record {
  total_transaction_groups = new 0 limits.max_transaction_groups;
  total_service_transaction_groups = new 0 limits.max_service_transaction_groups;
  total_span_groups = new 0 limits.max_span_groups;
}

abbrev pub new_service_instance_metrics : {F : Type 0} → ServiceInstanceMetrics F
new_service_instance_metrics = record {
  transaction_groups = [];
  service_transaction_groups = [];
  span_groups = [];
}

abbrev pub new_service_metrics : {F S : Type 0} → ServiceMetrics F S
new_service_metrics {F} {S} = record {
  service_instance_groups = [];
  overflow_groups = no_overflow F S;
}

-- What is found, or is new below the limit; `none` reports an overflow.
abbrev pub found_or_new : {A : Type 0} → Option A → ℕ → ℕ → A → Option A
found_or_new (some a) n limit fresh = some a
found_or_new none n limit fresh = if ltb n limit then some fresh else none

module _ {F S : Type 0} where
  unfoldable pub get_service_metrics :
      CombinedMetrics F S → ServiceAggregationKey → ℕ → Option (ServiceMetrics F S)
  get_service_metrics cm svc_key max_svcs =
      found_or_new (lookup ServiceAggregationKey-discrete svc_key cm.services) (length cm.services)
        max_svcs new_service_metrics

  unfoldable pub get_service_instance_metrics :
      ServiceMetrics F S → ServiceInstanceAggregationKey → ℕ → Option (ServiceInstanceMetrics F)
  get_service_instance_metrics sm si_key max_svc_instance_per_svc =
      found_or_new (lookup ServiceInstanceAggregationKey-discrete si_key sm.service_instance_groups)
        (length sm.service_instance_groups) max_svc_instance_per_svc new_service_instance_metrics

-- What `mergeServiceInstanceGroups` writes to: the service, the shared constraints and the
-- estimator of overflowed service instances.
pub record Instances (F S : Type 0) : Type 0 where
  pub to : ServiceMetrics F S
  pub constraints : Constraints
  pub estimator : Option S

-- The merger of combined metrics.
pub record CombinedMetricsMerger (F S : Type 0) : Type 0 where
  pub limits : Limits
  pub constraints : Constraints
  pub metrics : CombinedMetrics F S

module _ {F S D : Type 0} (env : Env F S D) (sb sc : ℕ → ℕ) where
  -- The three maps of an instance; a nil pointer to its metrics is a panic.
  unfoldable pub merge_instance :
      Limits
      → D
      → Instances F S
      → ServiceInstanceAggregationKey
      → ServiceInstanceMetrics F
      → Option (Pb.ServiceInstanceMetrics F)
      → Option (Instances F S)
  unfolding new merge_transaction_groups merge_service_transaction_groups merge_span_groups
  merge_instance limits hash st sik sim none = none
  merge_instance limits hash st sik sim (some from) = do
    let over = st.to.overflow_groups
    t ←
        merge_transaction_groups env sb sc hash
          (record {
            to = sim.transaction_groups;
            per_svc = new (length sim.transaction_groups) limits.max_transaction_groups_per_service;
            global = st.constraints.total_transaction_groups;
            overflow = over.overflow_transaction;
          })
          from.transaction_metrics
    s ←
        merge_service_transaction_groups env sb sc hash
          (record {
            to = sim.service_transaction_groups;
            per_svc =
                new (length sim.service_transaction_groups)
                  limits.max_service_transaction_groups_per_service;
            global = st.constraints.total_service_transaction_groups;
            overflow = over.overflow_service_transaction;
          })
          from.service_transaction_metrics
    p ←
        merge_span_groups env hash
          (record {
            to = sim.span_groups;
            per_svc = new (length sim.span_groups) limits.max_span_groups_per_service;
            global = st.constraints.total_span_groups;
            overflow = over.overflow_span;
          })
          from.span_metrics
    some (record {
      to = record {
        service_instance_groups =
            insert ServiceInstanceAggregationKey-discrete sik
              (record {
                transaction_groups = t.to;
                service_transaction_groups = s.to;
                span_groups = p.to;
              })
              st.to.service_instance_groups;
        overflow_groups = record {
          overflow_transaction = t.overflow;
          overflow_service_transaction = s.overflow;
          overflow_span = p.overflow;
        };
      };
      constraints = record {
        total_transaction_groups = t.global;
        total_service_transaction_groups = s.global;
        total_span_groups = p.global;
      };
      estimator = st.estimator;
    })

  unfoldable pub instance_at :
      Option (ServiceInstanceMetrics F)
      → Limits
      → D
      → Instances F S
      → Pb.KeyedServiceInstanceMetrics F
      → Option (Instances F S)
  unfolding merge_instance merge_to_overflow_from_sim insert_hash
  instance_at none limits hash st from = do
    let sik_hash = hash_service_instance_key env hash from.key
    o ← merge_to_overflow_from_sim env sb sc st.to.overflow_groups from sik_hash
    some (record st {
      to = record (st.to) { overflow_groups = o };
      estimator = insert_hash env st.estimator (env.sum64 sik_hash);
    })
  instance_at (some sim) limits hash st from =
      merge_instance limits hash st (service_instance_key_from_proto from.key) sim from.metrics

  unfoldable pub merge_service_instance_groups :
      Limits → D → Instances F S → List (Pb.KeyedServiceInstanceMetrics F) → Option (Instances F S)
  unfolding instance_at get_service_instance_metrics
  merge_service_instance_groups limits hash st [] = some st
  merge_service_instance_groups limits hash st (from ∷ rest) = do
    let sik = service_instance_key_from_proto from.key
    let sim = get_service_instance_metrics st.to sik limits.max_service_instance_groups_per_service
    st' ← instance_at sim limits hash st from
    merge_service_instance_groups limits hash st' rest
