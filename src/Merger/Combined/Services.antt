-- ===== src/Merger/Combined/Services.antt =====
-- `combinedMetricsMerger.merge` of aggregators/merger.go: combined metrics merged service by service.
use apm_aggregation.Base.{ℕ, Option, none, some, List, [], ◌∷◌}
use apm_aggregation.Base.Tests.{ltb, if◌then◌else◌}
use apm_aggregation.Base.Panic.{◌>>=◌}
use apm_aggregation.Base.Assoc.{insert}
use apm_aggregation.Pb
use apm_aggregation.Pb.{Text}
use apm_aggregation.Models.{ServiceMetrics, CombinedMetrics}
use apm_aggregation.Models.Env.{Env}
use apm_aggregation.Models.Keys.{ServiceAggregationKey, ServiceAggregationKey-discrete}
use apm_aggregation.Codec.Keys.{service_key_from_proto}
use apm_aggregation.Hash.{hash_service_key, hash_service_instance_key}
use apm_aggregation.Merger.Overflow.{
  insert_hash, merge_estimator, hll_sketch, merge_overflow, merge_to_overflow_from_sim,
}
use apm_aggregation.Merger.Combined.{
  get_service_metrics, merge_service_instance_groups, CombinedMetricsMerger,
}

module _ {F S D : Type 0} (env : Env F S D) (sb sc : ℕ → ℕ) where
  -- The instances of a service that overflowed.
  unfoldable pub overflow_instances :
      D
      → List (Pb.KeyedServiceInstanceMetrics F)
      → CombinedMetrics F S
      → Option (CombinedMetrics F S)
  unfolding merge_to_overflow_from_sim insert_hash
  overflow_instances service_key_hash [] cm = some cm
  overflow_instances service_key_hash (ksim ∷ rest) cm = do
    let hash = hash_service_instance_key env service_key_hash ksim.key
    o ← merge_to_overflow_from_sim env sb sc cm.overflow_services ksim hash
    overflow_instances service_key_hash rest (record cm {
      overflow_services = o;
      overflow_service_instances_estimator =
          insert_hash env cm.overflow_service_instances_estimator (env.sum64 hash);
    })

  -- Without metrics, a service that overflowed is a nil pointer that is followed.
  unfoldable pub overflow_service :
      D
      → Option (Pb.ServiceMetrics F)
      → CombinedMetricsMerger F S
      → Option (CombinedMetricsMerger F S)
  unfolding overflow_instances merge_overflow
  overflow_service service_key_hash none m = none
  overflow_service service_key_hash (some from) m = do
    o ← merge_overflow env sb sc m.metrics.overflow_services from.overflow_groups
    cm ←
        overflow_instances service_key_hash from.service_instance_metrics
          (record (m.metrics) { overflow_services = o })
    some (record m { metrics = cm })

  unfoldable pub merge_service :
      D
      → ServiceAggregationKey
      → ServiceMetrics F S
      → Option (Pb.ServiceMetrics F)
      → CombinedMetricsMerger F S
      → Option (CombinedMetricsMerger F S)
  unfolding merge_service_instance_groups merge_overflow
  merge_service service_key_hash sk to_svc none m = some (record m {
    metrics = record (m.metrics) {
      services = insert ServiceAggregationKey-discrete sk to_svc m.metrics.services;
    };
  })
  merge_service service_key_hash sk to_svc (some from) m = do
    o ← merge_overflow env sb sc to_svc.overflow_groups from.overflow_groups
    st ←
        merge_service_instance_groups env sb sc m.limits service_key_hash
          (record {
            to = record to_svc { overflow_groups = o };
            constraints = m.constraints;
            estimator = m.metrics.overflow_service_instances_estimator;
          })
          from.service_instance_metrics
    some (record m {
      constraints = st.constraints;
      metrics = record (m.metrics) {
        services = insert ServiceAggregationKey-discrete sk st.to m.metrics.services;
        overflow_service_instances_estimator = st.estimator;
      };
    })

  unfoldable pub service_at :
      Option (ServiceMetrics F S)
      → Pb.KeyedServiceMetrics F
      → CombinedMetricsMerger F S
      → Option (CombinedMetricsMerger F S)
  unfolding overflow_service merge_service
  service_at none from m =
      overflow_service (hash_service_key env env.digest from.key) from.metrics m
  service_at (some to_svc) from m =
      merge_service (hash_service_key env env.digest from.key) (service_key_from_proto from.key)
        to_svc from.metrics m

  unfoldable pub merge_services :
      List (Pb.KeyedServiceMetrics F)
      → CombinedMetricsMerger F S
      → Option (CombinedMetricsMerger F S)
  unfolding service_at get_service_metrics
  merge_services [] m = some m
  merge_services (from ∷ rest) m = do
    let to_svc =
        get_service_metrics m.metrics (service_key_from_proto from.key) m.limits.max_services
    m' ← service_at to_svc from m
    merge_services rest m'

  -- The overflow due to the limit of services, merged if its estimator is not empty. `hll_sketch`
  -- of it is then not nil.
  unfoldable pub merge_overflow_services :
      Option S → Option (Pb.Overflow F) → CombinedMetrics F S → Option (CombinedMetrics F S)
  unfolding merge_overflow merge_estimator
  merge_overflow_services none from cm = some cm
  merge_overflow_services (some sketch) from cm = do
    o ← merge_overflow env sb sc cm.overflow_services from
    some (record cm {
      overflow_services = o;
      overflow_service_instances_estimator =
          merge_estimator env cm.overflow_service_instances_estimator sketch;
    })

  -- The two sums that do not depend on the services.
  unfoldable pub merge_totals : CombinedMetrics F S → Pb.CombinedMetrics F → CombinedMetrics F S
  merge_totals cm from = record cm {
    events_total = env.add cm.events_total from.events_total;
    youngest_event_timestamp =
        if ltb cm.youngest_event_timestamp from.youngest_event_timestamp
        then from.youngest_event_timestamp
        else cm.youngest_event_timestamp;
  }

  unfoldable pub merge :
      CombinedMetricsMerger F S → Pb.CombinedMetrics F → Option (CombinedMetricsMerger F S)
  unfolding merge_totals merge_overflow_services merge_services hll_sketch
  merge m from = do
    cm ←
        merge_overflow_services (hll_sketch env from.overflow_service_instances_estimator)
          from.overflow_services (merge_totals m.metrics from)
    merge_services from.service_metrics (record m { metrics = cm })
