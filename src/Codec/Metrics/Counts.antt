-- ===== src/Codec/Metrics/Counts.antt =====
-- Combined metrics written by `ToProto` of aggregators/codec.go: what they count.
use apm_aggregation.Base.{ℕ, ◌≡◌, refl, sym, ◌∙◌, Option, none, some, List, [], ◌∷◌, map}
use apm_aggregation.Base.Tests.{if◌then◌else◌}
use apm_aggregation.Base.Words.{add64_comm}
use apm_aggregation.Pb
use apm_aggregation.Pb.{Text}
use apm_aggregation.Models.{Overflow, ServiceInstanceMetrics, ServiceMetrics}
use apm_aggregation.Models.Env.{Env}
use apm_aggregation.Models.Keys.{Limits}
use apm_aggregation.Merger.Overflow.Totals.{IsOverflow, IsOverflowIn}
use apm_aggregation.Merger.Groups.Counts.{sum_map, AllGroups}
use apm_aggregation.Merger.Combined.{CombinedMetricsMerger}
use apm_aggregation.Codec.Keys.{service_key_to_proto, service_instance_key_to_proto}
use apm_aggregation.Merger.Combined.Invariant.{
  Kind, count_of, lost_of, overflowing_of, IsInstance, IsService, count_in,
}
use apm_aggregation.Merger.Combined.InstanceLoop.{AllInstancesIn, instances_count}
use apm_aggregation.Merger.Combined.ServiceStep.{IsMerger, merger_count, service_in_count}
use apm_aggregation.Merger.Combined.Merge.{AllServicesIn, services_count}
use apm_aggregation.Merger.Combined.Whole.{IsCombinedIn, combined_count, none_overflowing}
use apm_aggregation.Codec.Metrics.{
  is_nil, overflow_to_proto, service_instance_metrics_to_proto, service_metrics_to_proto,
  combined_metrics_to_proto,
}
use apm_aggregation.Codec.Metrics.Written.{
  IsMatched, incoming_lem, instance_lem, Covered, IsCounted, nothing_lost, written, overflow_lem,
  overflowing_lem,
}

module _ {F S D : Type 0} (env : Env F S D) where
  instances_lem :
      {K : Type 0} (k : Kind) (q : ℕ) (key : K → Pb.ServiceInstanceAggregationKey)
      (m : List (K × ServiceInstanceMetrics F))
      → instances_count k q (
          map
            (λ (j, sim). record {
              key = key j;
              metrics = some (service_instance_metrics_to_proto sim);
            })
            m)
        ≡ sum_map (count_of k q) m
  unfolding instances_count sum_map
  instances_lem k q key [] = refl
  instances_lem k q key ((j, sim) ∷ m) = rw (incoming_lem k q sim, instances_lem k q key m) refl

  all_instances :
      {K : Type 0} (l : Limits) (key : K → Pb.ServiceInstanceAggregationKey)
      (m : List (K × ServiceInstanceMetrics F))
      → AllGroups (IsInstance l) m
      → AllInstancesIn (
          map
            (λ (j, sim). record {
              key = key j;
              metrics = some (service_instance_metrics_to_proto sim);
            })
            m)
  all_instances l key [] a = tt
  all_instances l key ((j, sim) ∷ m) a = (instance_lem l sim a.0, all_instances l key m a.1)

  service_lem :
      (k : Kind) (q : ℕ) (sm : ServiceMetrics F S)
      → IsMatched sm.overflow_groups
      → service_in_count k q (some (service_metrics_to_proto env sm)) ≡ count_in k q sm
  unfolding service_metrics_to_proto
  service_lem k q sm b =
      rw
        (
          overflowing_lem env k q sm.overflow_groups b,
          instances_lem k q service_instance_key_to_proto sm.service_instance_groups,
        )
        (add64_comm _ _)

  services_lem :
      {K : Type 0} (k : Kind) (q : ℕ) (key : K → Pb.ServiceAggregationKey)
      (m : List (K × ServiceMetrics F S))
      → AllGroups (λ sm. IsMatched sm.overflow_groups) m
      → services_count k q (
          map
            (λ (j, sm). record { key = key j; metrics = some (service_metrics_to_proto env sm) })
            m)
        ≡ sum_map (count_in k q) m
  unfolding services_count sum_map
  services_lem k q key [] a = refl
  services_lem k q key ((j, sm) ∷ m) a =
      rw (service_lem k q sm a.0, services_lem k q key m a.1) refl

  all_services :
      {K : Type 0} (l : Limits) (key : K → Pb.ServiceAggregationKey)
      (m : List (K × ServiceMetrics F S))
      → AllGroups (IsService l) m
      → AllGroups (λ sm. IsMatched sm.overflow_groups) m
      → AllServicesIn (
          map
            (λ (j, sm). record { key = key j; metrics = some (service_metrics_to_proto env sm) })
            m)
  unfolding service_metrics_to_proto
  all_services l key [] a b = tt
  all_services l key ((j, sm) ∷ m) a b = (
    (
      overflow_lem env sm.overflow_groups a.0.overflow b.0,
      all_instances l service_instance_key_to_proto sm.service_instance_groups a.0.instances,
    ),
    all_services l key m a.1 b.1,
  )

  top_lem :
      (k : Kind) (q : ℕ) (e : Option S) (o : Overflow F S)
      → IsMatched o
      → Covered e o
      → overflowing_of k q (if is_nil e then none else some (overflow_to_proto env o))
        ≡ lost_of k q o
  top_lem k q none o b c = none_overflowing F k q ∙ sym (rw c (nothing_lost F S k q))
  top_lem k q (some s) o b c = overflowing_lem env k q o b

  top_IsOverflowIn :
      (e : Option S) (o : Overflow F S)
      → IsOverflow o
      → IsMatched o
      → IsOverflowIn (if is_nil e then none else some (overflow_to_proto env o))
  top_IsOverflowIn none o a b = tt
  top_IsOverflowIn (some s) o a b = overflow_lem env o a b

  -- Combined metrics whose groups are well formed and whose overflows have their estimators:
  -- `ToProto` writes metrics that can be merged, and that count the same in each bucket.
  pub combined_metrics_to_proto-Counts :
      (m : CombinedMetricsMerger F S)
      → IsMerger m
      → IsCounted m.metrics
      → IsCombinedIn (combined_metrics_to_proto env m.metrics)
        × ((k : Kind) (q : ℕ)
            → combined_count k q (combined_metrics_to_proto env m.metrics)
              ≡ merger_count k q m.metrics)
  unfolding combined_metrics_to_proto
  combined_metrics_to_proto-Counts m v c = (
    record {
      services =
          all_services m.limits service_key_to_proto m.metrics.services v.services c.services;
      overflow =
          top_IsOverflowIn m.metrics.overflow_service_instances_estimator _ v.overflow c.overflow;
      estimated =
          written env (some (overflow_to_proto env m.metrics.overflow_services))
            m.metrics.overflow_service_instances_estimator;
    },
    λ k q.
        rw
          (
            top_lem k q m.metrics.overflow_service_instances_estimator m.metrics.overflow_services
                c.overflow c.estimated,
            services_lem k q service_key_to_proto m.metrics.services c.services,
          )
          (add64_comm _ _),
  )
