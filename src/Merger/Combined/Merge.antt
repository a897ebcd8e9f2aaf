-- ===== src/Merger/Combined/Merge.antt =====
-- `combinedMetricsMerger.merge` of aggregators/merger.go as a whole.
use apm_aggregation.Base.{ℕ, ◌≡◌, refl, sym, ◌∙◌, inl, inr, Option, none, some, List, [], ◌∷◌}
use apm_aggregation.Base.Lists.{All}
use apm_aggregation.Base.Words.{add64, add64-zero, add64-lt, add64_assoc}
use apm_aggregation.Pb.{Text}
use apm_aggregation.Pb
use apm_aggregation.Models.{CombinedMetrics, Overflow}
use apm_aggregation.Models.Env.{Env}
use apm_aggregation.Models.Keys.{ServiceAggregationKey-discrete}
use apm_aggregation.Codec.Keys.{service_key_from_proto}
use apm_aggregation.Hash.{hash_service_key, hash_service_instance_key}
use apm_aggregation.Merger.Overflow.{insert_hash}
use apm_aggregation.Merger.Overflow.Totals.{
  Gains, merge_overflow-Gains, merge_to_overflow_from_sim-Gains,
}
use apm_aggregation.Merger.Groups.Counts.{sum_map}
use apm_aggregation.Merger.Combined.{
  CombinedMetricsMerger, get_service_metrics, new_service_metrics,
}
use apm_aggregation.Merger.Combined.Services.{
  overflow_instances, overflow_service, service_at, merge_services,
}
use apm_aggregation.Merger.Combined.Found.{found_or_new_cases}
use apm_aggregation.Merger.Combined.Invariant.{
  Kind, transactions, services, spans, lost_of, overflowing_of, incoming_of, count_in,
  Gains-lost_of,
}
use apm_aggregation.Merger.Combined.InstanceLoop.{AllInstancesIn, instances_count}
use apm_aggregation.Merger.Combined.ServiceStep.{
  IsMerger, merger_count, IsServiceIn, service_in_count, Takes, kept,
}

pub Takes-trans :
    {F S : Type 0} {a b c : CombinedMetricsMerger F S} {x y : Kind → ℕ → ℕ}
    → Takes a x b
    → Takes b y c
    → Takes a (λ k q. add64 (x k q) (y k q)) c
Takes-trans p r = record {
  valid = r.valid;
  limits = r.limits ∙ p.limits;
  counts = λ k q. r.counts k q ∙ rw (p.counts k q) (add64_assoc _ _ _);
  events = r.events ∙ p.events;
  youngest = r.youngest ∙ p.youngest;
}

-- The incoming services.
abbrev pub AllServicesIn : {F : Type 0} → List (Pb.KeyedServiceMetrics F) → Type 0
AllServicesIn = All (λ v. IsServiceIn v.metrics)

unfoldable pub services_count : {F : Type 0} → Kind → ℕ → List (Pb.KeyedServiceMetrics F) → ℕ
services_count k q [] = 0
services_count k q (v ∷ vs) = add64 (service_in_count k q v.metrics) (services_count k q vs)

module _ {F S : Type 0} where
  -- A merger whose overflow and estimator alone change.
  abbrev pub with_overflow :
      CombinedMetricsMerger F S → Overflow F S → Option S → CombinedMetricsMerger F S
  with_overflow m o e = record m {
    metrics = record (m.metrics) {
      overflow_services = o;
      overflow_service_instances_estimator = e;
    };
  }

  pub with_overflow-Takes :
      (m : CombinedMetricsMerger F S) (o : Overflow F S) (e : Option S) (t u : ℕ → ℕ)
      (x : Kind → ℕ → ℕ)
      → IsMerger m
      → Gains m.metrics.overflow_services t u o
      → ((q : ℕ) → x transactions q ≡ t q)
      → ((q : ℕ) → x services q ≡ u q)
      → ((q : ℕ) → x spans q ≡ 0)
      → Takes m x (with_overflow m o e)
  with_overflow-Takes m o e t u x v g xt xu xp = record {
    valid = record {
      services = v.services;
      room = v.room;
      overflow = g.well_formed;
      constrained = v.constrained;
      totals = v.totals;
    };
    limits = refl;
    counts = λ k q. rw (Gains-lost_of k q x g (xt q) (xu q) (xp q)) (
        sym (
          add64_assoc (sum_map (count_in k q) m.metrics.services)
            (lost_of k q m.metrics.overflow_services) (x k q)));
    events = refl;
    youngest = refl;
  }

  pub Takes-none : (m : CombinedMetricsMerger F S) → IsMerger m → Takes m (λ k q. 0) m
  Takes-none m v = record {
    valid = v;
    limits = refl;
    counts = λ k q. sym (add64-zero (merger_count k q m.metrics) (add64-lt _ _));
    events = refl;
    youngest = refl;
  }

module _ {F S D : Type 0} (env : Env F S D) (sb sc : ℕ → ℕ) where
  overflow_instances-Takes :
      (hash : D) (vs : List (Pb.KeyedServiceInstanceMetrics F)) (m : CombinedMetricsMerger F S)
      → IsMerger m
      → AllInstancesIn vs
      → (cm : CombinedMetrics F S) × (overflow_instances env sb sc hash vs m.metrics ≡ some cm)
        × Takes m (λ k q. instances_count k q vs) (record m { metrics = cm })
  unfolding overflow_instances instances_count
  overflow_instances-Takes hash [] m v p = (m.metrics, refl, Takes-none m v)
  overflow_instances-Takes hash (w ∷ ws) m v p =
      let h = hash_service_instance_key env hash w.key in
      let (o, run_o, g) =
        merge_to_overflow_from_sim-Gains env sb sc h m.metrics.overflow_services w v.overflow p.0 in
      let e = insert_hash env m.metrics.overflow_service_instances_estimator (env.sum64 h) in
      let one =
        with_overflow-Takes m o e _ _ (λ k q. incoming_of k q w.metrics) v g (λ q. refl) (λ q. refl)
          (λ q. refl) in
      let (cm, run, more) = overflow_instances-Takes hash ws (with_overflow m o e) one.valid p.1 in
      (cm, rw run_o run, Takes-trans one more)

  overflowed :
      (m : CombinedMetricsMerger F S) (hash : D) (from : Option (Pb.ServiceMetrics F))
      → IsMerger m
      → IsServiceIn from
      → (m' : CombinedMetricsMerger F S) × (overflow_service env sb sc hash from m ≡ some m')
        × Takes m (λ k q. service_in_count k q from) m'
  unfolding overflow_service
  overflowed m hash none v p = absurd p
  overflowed m hash (some from) v p =
      let (o, run_o, g) =
        merge_overflow-Gains env sb sc m.metrics.overflow_services from.overflow_groups v.overflow
          p.0 in
      let e = m.metrics.overflow_service_instances_estimator in
      let one =
        with_overflow-Takes m o e _ _ (λ k q. overflowing_of k q from.overflow_groups) v g
          (λ q. refl) (λ q. refl) (λ q. refl) in
      let (cm, run, more) =
        overflow_instances-Takes hash from.service_instance_metrics (with_overflow m o e) one.valid
          p.1 in
      (record m { metrics = cm }, rw run_o (rw run refl), Takes-trans one more)

  step :
      (m : CombinedMetricsMerger F S) (from : Pb.KeyedServiceMetrics F)
      → IsMerger m
      → IsServiceIn from.metrics
      → (m' : CombinedMetricsMerger F S) × (service_at env sb sc
            (get_service_metrics m.metrics (service_key_from_proto from.key) m.limits.max_services)
            from
            m
          ≡ some m')
        × Takes m (λ k q. service_in_count k q from.metrics) m'
  unfolding service_at get_service_metrics
  step m from v p =
      let hash = hash_service_key env env.digest from.key in
      elim (found_or_new_cases ServiceAggregationKey-discrete m.metrics.services
        m.limits.max_services new_service_metrics (service_key_from_proto from.key)) [
          | inl full ↦
              let (m', run, t) = overflowed m hash from.metrics v p in
              (m', rw (full, service_at) run, t)
          | inr (sm, e, found) ↦
              let (m', run, t) =
                kept env sb sc m hash (service_key_from_proto from.key) sm from.metrics v found p in
              (m', rw (e, service_at) run, t)
        ]

  pub merge_services-Takes :
      (from : List (Pb.KeyedServiceMetrics F)) (m : CombinedMetricsMerger F S)
      → IsMerger m
      → AllServicesIn from
      → (m' : CombinedMetricsMerger F S) × (merge_services env sb sc from m ≡ some m')
        × Takes m (λ k q. services_count k q from) m'
  unfolding merge_services services_count
  merge_services-Takes [] m v p = (m, refl, Takes-none m v)
  merge_services-Takes (w ∷ ws) m v p =
      let (mid, one, t) = step m w v p.0 in
      let (end, run, u) = merge_services-Takes ws mid t.valid p.1 in
      (end, rw one run, Takes-trans t u)
