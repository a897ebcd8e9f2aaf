-- ===== src/Merger/Combined/ServiceStep.antt =====
-- The merge of one service, in `merge` of aggregators/merger.go.
use apm_aggregation.Base.{ℕ, ◌≤◌, ◌≡◌, refl, Option, none, some, arith}
use apm_aggregation.Base.Lists.{length}
use apm_aggregation.Base.Words.{add64, add64-lt}
use apm_aggregation.Base.Assoc.{insert}
use apm_aggregation.Bars.{count_at}
use apm_aggregation.Pb
use apm_aggregation.Models.{ServiceMetrics, CombinedMetrics}
use apm_aggregation.Models.Env.{Env}
use apm_aggregation.Models.Keys.{Limits, ServiceAggregationKey, ServiceAggregationKey-discrete}
use apm_aggregation.Merger.Overflow.Totals.{IsOverflow, IsOverflowIn, merge_overflow-Gains}
use apm_aggregation.Merger.Groups.Counts.{AllGroups, sum_map, insert-AllGroups}
use apm_aggregation.Merger.Combined.{Instances, CombinedMetricsMerger, new_service_metrics}
use apm_aggregation.Merger.Combined.Services.{merge_service}
use apm_aggregation.Merger.Combined.Found.{
  Found, Found-AllGroups, length-Found, size_map, size_map-Found, sum_map-Found, balance,
}
use apm_aggregation.Merger.Combined.Invariant.{
  Kind, transactions, services, spans, constraint_of, lost_of, overflowing_of, IsService,
  IsConstrained, service_size, count_in, Moves-trans,
}
use apm_aggregation.Merger.Combined.InstanceLoop.{
  AllInstancesIn, instances_count, overflowed-Moves, merge_service_instance_groups-Moves,
}

-- The state of a merger: services and their instances within the limits, well-formed groups, and
-- constraints that count the groups of all instances.
pub record IsMerger {F S : Type 0} (m : CombinedMetricsMerger F S) : Type 0 where
  pub services : AllGroups (IsService m.limits) m.metrics.services
  pub room : length m.metrics.services ≤ m.limits.max_services
  pub overflow : IsOverflow m.metrics.overflow_services
  pub constrained : IsConstrained m.limits m.constraints
  pub totals :
      (k : Kind)
      → (constraint_of k m.constraints).counter ≡ size_map (service_size k) m.metrics.services

-- All counts of the groups, the overflow of the services and that of the merger.
abbrev pub merger_count : {F S : Type 0} → Kind → ℕ → CombinedMetrics F S → ℕ
merger_count k q cm = add64 (sum_map (count_in k q) cm.services) (lost_of k q cm.overflow_services)

-- An incoming service.
abbrev pub IsServiceIn : {F : Type 0} → Option (Pb.ServiceMetrics F) → Type 0
IsServiceIn none = ⊥
IsServiceIn (some m) = IsOverflowIn m.overflow_groups × AllInstancesIn m.service_instance_metrics

abbrev pub service_in_count : {F : Type 0} → Kind → ℕ → Option (Pb.ServiceMetrics F) → ℕ
service_in_count k q none = 0
service_in_count k q (some m) =
    add64 (overflowing_of k q m.overflow_groups) (instances_count k q m.service_instance_metrics)

-- A merger that took in the counts `x`, with its other fields as they were.
pub record Takes {F S : Type 0} (m : CombinedMetricsMerger F S) (x : Kind → ℕ → ℕ)
    (m' : CombinedMetricsMerger F S) : Type 0 where
  pub valid : IsMerger m'
  pub limits : m'.limits ≡ m.limits
  pub counts :
      (k : Kind) (q : ℕ) → merger_count k q m'.metrics ≡ add64 (merger_count k q m.metrics) (x k q)
  pub events : m'.metrics.events_total ≡ m.metrics.events_total
  pub youngest : m'.metrics.youngest_event_timestamp ≡ m.metrics.youngest_event_timestamp

beside : (v' v o x : ℕ) → v' ≡ add64 v x → add64 v' o ≡ add64 (add64 v o) x
unfolding add64
beside v' v o x h = omega arith

fresh_count :
    (F S : Type 0) (k : Kind) (q : ℕ) → count_in {F = F} {S = S} k q new_service_metrics ≡ 0
unfolding sum_map add64 count_at
fresh_count F S transactions q = refl
fresh_count F S services q = refl
fresh_count F S spans q = refl

fresh_size : (F S : Type 0) (k : Kind) → service_size {F = F} {S = S} k new_service_metrics ≡ 0
unfolding size_map
fresh_size F S transactions = refl
fresh_size F S services = refl
fresh_size F S spans = refl

fresh-IsService : (F S : Type 0) (l : Limits) → IsService {F = F} {S = S} l new_service_metrics
fresh-IsService F S l = record {
  instances = tt;
  room = omega arith;
  overflow = record { transactions = tt; services = tt };
}

module _ {F S D : Type 0} (env : Env F S D) (sb sc : ℕ → ℕ) where
  -- The service written back, after its overflow and its instances were merged in.
  pub kept :
      (m : CombinedMetricsMerger F S) (hash : D) (sk : ServiceAggregationKey)
      (sm : ServiceMetrics F S) (from : Option (Pb.ServiceMetrics F))
      → IsMerger m
      → Found ServiceAggregationKey-discrete m.metrics.services m.limits.max_services
          new_service_metrics sk sm
      → IsServiceIn from
      → (m' : CombinedMetricsMerger F S) × (merge_service env sb sc hash sk sm from m ≡ some m')
        × Takes m (λ k q. service_in_count k q from) m'
  unfolding merge_service
  kept m hash sk sm none v found p = absurd p
  kept m hash sk sm (some from) v found p =
      let l = m.limits in
      let s =
        Found-AllGroups ServiceAggregationKey-discrete m.metrics.services l.max_services
          new_service_metrics sk sm (IsService l) (fresh-IsService F S l) v.services found in
      let st : Instances F S = record {
        to = sm;
        constraints = m.constraints;
        estimator = m.metrics.overflow_service_instances_estimator;
      } in
      let (o, run_o, g) =
        merge_overflow-Gains env sb sc sm.overflow_groups from.overflow_groups s.overflow p.0 in
      let first =
        overflowed-Moves env sb sc l hash st o st.estimator _ _
          (λ k q. overflowing_of k q from.overflow_groups) s v.constrained g (λ q. refl) (λ q. refl)
          (λ q. refl) in
      let (end, run, second) =
        merge_service_instance_groups-Moves env sb sc l hash
          (record st { to = record sm { overflow_groups = o } }) from.service_instance_metrics
          first.service v.constrained p.1 in
      let moved = Moves-trans first second in
      (
        record m {
          constraints = end.constraints;
          metrics = record (m.metrics) {
            services = insert ServiceAggregationKey-discrete sk end.to m.metrics.services;
            overflow_service_instances_estimator = end.estimator;
          };
        },
        rw run_o (rw run refl),
        record {
          valid = record {
            services =
                insert-AllGroups ServiceAggregationKey-discrete (IsService l) sk end.to
                  m.metrics.services moved.service v.services;
            room =
                length-Found ServiceAggregationKey-discrete m.metrics.services l.max_services
                  new_service_metrics sk sm end.to v.room found;
            overflow = v.overflow;
            constrained = moved.constrained;
            totals = λ k. omega (
              arith,
              v.totals k,
              moved.sizes k,
              size_map-Found ServiceAggregationKey-discrete m.metrics.services l.max_services
                  new_service_metrics sk sm (service_size k) end.to (fresh_size F S k) found,
            );
          };
          limits = refl;
          counts = λ k q.
              rw
                (sum_map-Found ServiceAggregationKey-discrete m.metrics.services l.max_services
                  new_service_metrics sk sm (count_in k q) end.to (λ u. add64-lt _ _)
                  (fresh_count F S k q) found)
                (balance _ (count_in k q sm) (count_in k q end.to)
                  (lost_of k q m.metrics.overflow_services)
                  (lost_of k q m.metrics.overflow_services) _
                  (beside (count_in k q end.to) (count_in k q sm)
                    (lost_of k q m.metrics.overflow_services) (service_in_count k q (some from))
                    (moved.counts k q)));
          events = refl;
          youngest = refl;
        },
      )
