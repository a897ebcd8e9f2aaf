-- ===== src/Merger/Combined/Whole.antt =====
-- Combined metrics merged as a whole, once and in a row, as the database calls `MergeNewer` and
-- `MergeOlder` of aggregators/merger.go. Both unmarshal the operand and call `merge`.
use apm_aggregation.Base.{
  ℕ, ◌≤◌, ◌<◌, ◌^◌, ◌≡◌, refl, sym, subst, ◌∙◌, max, Option, none, some, List, [], ◌∷◌, arith,
}
use apm_aggregation.Base.Lists.{All}
use apm_aggregation.Base.Words.{add64, add64-zero, add64-lt, add64_assoc}
use apm_aggregation.Base.Panic.{◌>>=◌}
use apm_aggregation.Base.Lists.{length}
use apm_aggregation.Bars.{count_at}
use apm_aggregation.Merger.Groups.Counts.{sum_map}
use apm_aggregation.Base.Words.{zero-add64}
use apm_aggregation.Pb.{Text}
use apm_aggregation.Pb
use apm_aggregation.Constraint.{new}
use apm_aggregation.Models.{CombinedMetrics, no_overflow}
use apm_aggregation.Models.Env.{Env}
use apm_aggregation.Models.Keys.{Limits}
use apm_aggregation.Merger.Overflow.{merge_estimator, hll_sketch}
use apm_aggregation.Merger.Overflow.Buckets.{Estimated}
use apm_aggregation.Merger.Overflow.Totals.{IsOverflowIn, merge_overflow-Gains}
use apm_aggregation.Merger.Combined.{CombinedMetricsMerger, new_constraints}
use apm_aggregation.Merger.Combined.Services.{merge_overflow_services, merge_totals, merge}
use apm_aggregation.Merger.Combined.Found.{size_map}
use apm_aggregation.Merger.Combined.Invariant.{
  Kind, transactions, services, spans, by_kind, overflowing_of, service_size, total_limit,
}
use apm_aggregation.Merger.Combined.ServiceStep.{IsMerger, merger_count, Takes}
use apm_aggregation.Merger.Combined.Merge.{
  AllServicesIn, services_count, with_overflow, with_overflow-Takes, Takes-none, Takes-trans,
  merge_services-Takes,
}

-- Incoming combined metrics, as `ToProto` writes them.
pub record IsCombinedIn {F : Type 0} (from : Pb.CombinedMetrics F) : Type 0 where
  pub services : AllServicesIn from.service_metrics
  pub overflow : IsOverflowIn from.overflow_services
  pub estimated : Estimated from.overflow_services from.overflow_service_instances_estimator

abbrev pub combined_count : {F : Type 0} → Kind → ℕ → Pb.CombinedMetrics F → ℕ
combined_count k q from =
    add64 (overflowing_of k q from.overflow_services) (services_count k q from.service_metrics)

unfoldable pub all_count : {F : Type 0} → Kind → ℕ → List (Pb.CombinedMetrics F) → ℕ
all_count k q [] = 0
all_count k q (from ∷ rest) = add64 (combined_count k q from) (all_count k q rest)

pub all_count-lt :
    {F : Type 0} (k : Kind) (q : ℕ) (from : List (Pb.CombinedMetrics F))
    → all_count k q from < 2 ^ 64
unfolding all_count
all_count-lt k q [] = omega arith
all_count-lt k q (from ∷ rest) = add64-lt (combined_count k q from) (all_count k q rest)

-- The merger after it took in `from`.
pub record Merged {F S D : Type 0} (env : Env F S D) (m : CombinedMetricsMerger F S)
    (from : Pb.CombinedMetrics F) (m' : CombinedMetricsMerger F S) : Type 0 where
  pub valid : IsMerger m'
  pub limits : m'.limits ≡ m.limits
  pub counts :
      (k : Kind) (q : ℕ)
      → merger_count k q m'.metrics ≡ add64 (merger_count k q m.metrics) (combined_count k q from)
  pub events : m'.metrics.events_total ≡ env.add m.metrics.events_total from.events_total
  pub youngest :
      m'.metrics.youngest_event_timestamp
      ≡ max m.metrics.youngest_event_timestamp from.youngest_event_timestamp

pub none_overflowing : (F : Type 0) (k : Kind) (q : ℕ) → overflowing_of {F = F} k q none ≡ 0
none_overflowing F transactions q = refl
none_overflowing F services q = refl
none_overflowing F spans q = refl

module _ {F S D : Type 0} (env : Env F S D) (sb sc : ℕ → ℕ) where
  overflow_first :
      (bytes : Text) (ov : Option (Pb.Overflow F)) (m : CombinedMetricsMerger F S)
      → IsMerger m
      → IsOverflowIn ov
      → Estimated ov bytes
      → (cm : CombinedMetrics F S) × (merge_overflow_services env sb sc
            (hll_sketch env bytes)
            ov
            m.metrics
          ≡ some cm)
        × Takes m (λ k q. overflowing_of k q ov) (record m { metrics = cm })
  unfolding merge_overflow_services hll_sketch
  overflow_first [] none m v p h =
      let same = Takes-none m v in
      (
        m.metrics,
        refl,
        record {
          valid = v;
          limits = refl;
          counts = λ k q. same.counts k q ∙ rw (none_overflowing F k q) refl;
          events = refl;
          youngest = refl;
        },
      )
  overflow_first [] (some o) m v p h = absurd (h refl)
  overflow_first (b ∷ bs) ov m v p h =
      let (o, run, g) =
        merge_overflow-Gains env sb sc m.metrics.overflow_services ov v.overflow p in
      let e =
        merge_estimator env m.metrics.overflow_service_instances_estimator
          (env.unmarshal_sketch (b ∷ bs)) in
      (
        (with_overflow m o e).metrics,
        rw run refl,
        with_overflow-Takes m o e _ _ (λ k q. overflowing_of k q ov) v g (λ q. refl) (λ q. refl)
            (λ q. refl),
      )

  merge_totals-IsMerger :
      (m : CombinedMetricsMerger F S) (from : Pb.CombinedMetrics F)
      → IsMerger m
      → IsMerger (record m { metrics = merge_totals env sb sc m.metrics from })
  unfolding merge_totals
  merge_totals-IsMerger m from v = record {
    services = v.services;
    room = v.room;
    overflow = v.overflow;
    constrained = v.constrained;
    totals = v.totals;
  }

  -- A merger within its limits, whose groups are well formed and counted by its constraints, merges
  -- well-formed combined metrics without a panic and is such a merger again. For both kinds of
  -- histograms and every bucket, the counts of all groups and overflow buckets together grow by those
  -- that come in (modulo 2 ^ 64). The events are added, and the younger timestamp is kept.
  pub merge-Merged :
      (m : CombinedMetricsMerger F S) (from : Pb.CombinedMetrics F)
      → IsMerger m
      → IsCombinedIn from
      → (m' : CombinedMetricsMerger F S) × (merge env sb sc m from ≡ some m') × Merged env m from m'
  unfolding merge merge_totals
  merge-Merged m from v p =
      let start = record m { metrics = merge_totals env sb sc m.metrics from } in
      let (cm, run_o, first) =
        overflow_first from.overflow_service_instances_estimator from.overflow_services start
          (merge_totals-IsMerger m from v) p.overflow p.estimated in
      let (end, run, more) =
        merge_services-Takes env sb sc from.service_metrics (record m { metrics = cm }) first.valid
          p.services in
      let t = Takes-trans first more in
      (
        end,
        rw run_o run,
        record {
          valid = t.valid;
          limits = t.limits;
          counts = t.counts;
          events = t.events;
          youngest = t.youngest ∙ ground arith;
        },
      )

  -- A merger as the database makes it, and its operands one after the other.
  unfoldable pub new_merger : Limits → CombinedMetricsMerger F S
  unfolding new_constraints
  new_merger l = record {
    limits = l;
    constraints = new_constraints l;
    metrics = record {
      services = [];
      overflow_services = no_overflow F S;
      overflow_service_instances_estimator = none;
      events_total = env.zero;
      youngest_event_timestamp = 0;
    };
  }

  unfoldable pub merge_all :
      CombinedMetricsMerger F S → List (Pb.CombinedMetrics F) → Option (CombinedMetricsMerger F S)
  unfolding merge
  merge_all m [] = some m
  merge_all m (from ∷ rest) = do m' ← merge env sb sc m from; merge_all m' rest

  pub new_merger-IsMerger : (l : Limits) → IsMerger (new_merger l)
  unfolding new_merger size_map new
  new_merger-IsMerger l = record {
    services = tt;
    room = omega arith;
    overflow = record { transactions = tt; services = tt };
    constrained = record {
      limit = by_kind _ refl refl refl;
      within = by_kind _ (omega arith) (omega arith) (omega arith);
    };
    totals = by_kind _ refl refl refl;
  }

  merge_all-IsMerger :
      (m : CombinedMetricsMerger F S) (from : List (Pb.CombinedMetrics F))
      → IsMerger m
      → All IsCombinedIn from
      → (m' : CombinedMetricsMerger F S) × (merge_all m from ≡ some m')
        × IsMerger m'
        × (m'.limits ≡ m.limits)
        × ((k : Kind) (q : ℕ)
            → merger_count k q m'.metrics ≡ add64 (merger_count k q m.metrics) (all_count k q from))
  unfolding merge_all all_count
  merge_all-IsMerger m [] v p =
      (m, refl, v, refl, λ k q. sym (add64-zero (merger_count k q m.metrics) (add64-lt _ _)))
  merge_all-IsMerger m (from ∷ rest) v p =
      let (mid, one, t) = merge-Merged m from v p.0 in
      let (end, run, w, same, e) = merge_all-IsMerger mid rest t.valid p.1 in
      (end, rw one run, w, same ∙ t.limits, λ k q. e k q ∙ rw (t.counts k q) (add64_assoc _ _ _))

  pub new_merger_count :
      (l : Limits) (k : Kind) (q : ℕ) → merger_count k q (new_merger l).metrics ≡ 0
  unfolding new_merger sum_map add64 count_at
  new_merger_count l transactions q = refl
  new_merger_count l services q = refl
  new_merger_count l spans q = refl

  -- Well-formed operands merged one after the other into a new merger never panic. The services stay
  -- within their limit, the groups of all services together within the limit of their kind, and the
  -- counts of all groups and overflow buckets are the sums over the operands (modulo 2 ^ 64).
  pub merge_all-Bounded :
      (l : Limits) (from : List (Pb.CombinedMetrics F))
      → All IsCombinedIn from
      → (m' : CombinedMetricsMerger F S) × (merge_all (new_merger l) from ≡ some m')
        × (length m'.metrics.services ≤ l.max_services)
        × ((k : Kind) → size_map (service_size k) m'.metrics.services ≤ total_limit k l)
        × ((k : Kind) (q : ℕ) → merger_count k q m'.metrics ≡ all_count k q from)
  unfolding new_merger
  merge_all-Bounded l from p =
      let (m', run, v, same, e) =
        merge_all-IsMerger (new_merger l) from (new_merger-IsMerger l) p in
      (
        m',
        run,
        subst (λ (x : Limits). length m'.metrics.services ≤ x.max_services) same v.room,
        λ k.
            subst (λ (x : Limits). size_map (service_size k) m'.metrics.services ≤ total_limit k x)
              same (rw (sym (v.totals k)) (v.constrained.within k)),
        λ k q. e k q ∙ rw (new_merger_count l k q) (zero-add64 _ (all_count-lt k q from)),
      )
