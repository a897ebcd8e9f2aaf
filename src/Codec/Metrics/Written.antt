-- ===== src/Codec/Metrics/Written.antt =====
-- Overflows and service instances written by `ToProto` of aggregators/codec.go: what they count.
use apm_aggregation.Base.{ℕ, ◌≡◌, refl, sym, ap, Option, none, some, List, [], ◌∷◌}
use apm_aggregation.Base.Lists.{All}
use apm_aggregation.Base.Tests.{if◌then◌else◌}
use apm_aggregation.Base.Words.{add64}
use apm_aggregation.Bars.{count_at}
use apm_aggregation.Models.{Overflow, ServiceInstanceMetrics, CombinedMetrics, no_overflow}
use apm_aggregation.Models.Env.{Env}
use apm_aggregation.Models.Keys.{Limits}
use apm_aggregation.Merger.Overflow.{hll_bytes}
use apm_aggregation.Merger.Overflow.Buckets.{Estimated}
use apm_aggregation.Merger.Overflow.Totals.{IsOverflow, IsOverflowProto, IsInstanceIn}
use apm_aggregation.Merger.Groups.Counts.{sum_list, sum_map, AllGroups}
use apm_aggregation.Merger.Combined.Invariant.{
  Kind, transactions, services, spans, count_of, lost_of, incoming_of, overflowing_of, IsInstance,
}
use apm_aggregation.Codec.Metrics.{
  values, is_nil, overflow_to_proto, service_instance_metrics_to_proto,
}

-- Metrics without an estimator are empty: an overflow has been counted whenever it was merged.
abbrev pub Matched {ℓ} : {A S : Type ℓ} → Option A → Option S → Type ℓ
Matched m none = m ≡ none
Matched m (some s) = Unit

pub record IsMatched {F S : Type 0} (o : Overflow F S) : Type 0 where
  pub transactions : Matched o.overflow_transaction.metrics o.overflow_transaction.estimator
  pub services :
      Matched o.overflow_service_transaction.metrics o.overflow_service_transaction.estimator
  pub spans : Matched o.overflow_span.metrics o.overflow_span.estimator

module _ {K V : Type 0} (amount : V → ℕ) where
  pub sum_list-values : (m : List (K × V)) → sum_list amount (values m) ≡ sum_map amount m
  unfolding sum_list sum_map
  sum_list-values [] = refl
  sum_list-values ((k, v) ∷ m) = ap (add64 (amount v)) (sum_list-values m)

module _ {K V : Type 0} (P : V → Type 0) where
  pub values-All : (m : List (K × V)) → AllGroups P m → All P (values m)
  values-All [] a = tt
  values-All ((k, v) ∷ m) a = (a.0, values-All m a.1)

pub incoming_lem :
    {F : Type 0} (k : Kind) (q : ℕ) (sim : ServiceInstanceMetrics F)
    → incoming_of k q (some (service_instance_metrics_to_proto sim)) ≡ count_of k q sim
unfolding service_instance_metrics_to_proto
incoming_lem transactions q sim = sum_list-values _ sim.transaction_groups
incoming_lem services q sim = sum_list-values _ sim.service_transaction_groups
incoming_lem spans q sim = refl

pub instance_lem :
    {F : Type 0} (l : Limits) (sim : ServiceInstanceMetrics F)
    → IsInstance l sim
    → IsInstanceIn (some (service_instance_metrics_to_proto sim))
unfolding service_instance_metrics_to_proto
instance_lem l sim i = (
  values-All _ sim.transaction_groups i.all_transactions,
  values-All _ sim.service_transaction_groups i.all_services,
  values-All _ sim.span_groups i.all_spans,
)

-- An overflow that is not written is empty.
abbrev pub Covered : {F S : Type 0} → Option S → Overflow F S → Type 0
Covered {F} {S} none o = o ≡ no_overflow F S
Covered (some s) o = Unit {0}

-- Every overflow has its estimators.
pub record IsCounted {F S : Type 0} (cm : CombinedMetrics F S) : Type 0 where
  pub services : AllGroups (λ sm. IsMatched sm.overflow_groups) cm.services
  pub overflow : IsMatched cm.overflow_services
  pub estimated : Covered cm.overflow_service_instances_estimator cm.overflow_services

pub nothing_lost : (F S : Type 0) (k : Kind) (q : ℕ) → lost_of k q (no_overflow F S) ≡ 0
unfolding count_at
nothing_lost F S transactions q = refl
nothing_lost F S services q = refl
nothing_lost F S spans q = refl

module _ {F S D : Type 0} (env : Env F S D) where
  pub written :
      {A : Type 0} (m : Option A) (e : Option S)
      → Estimated (if is_nil e then none else m) (if is_nil e then [] else hll_bytes env e)
  unfolding hll_bytes
  written m none = tt
  written none (some s) = tt
  written (some a) (some s) = env.marshal-ne-nil s

  pub part_lem :
      {A : Type 0} (m : Option A) (e : Option S) → Matched m e → (if is_nil e then none else m) ≡ m
  part_lem m none h = sym h
  part_lem m (some s) h = refl

  pub overflow_lem :
      (o : Overflow F S) → IsOverflow o → IsMatched o → IsOverflowProto (overflow_to_proto env o)
  unfolding overflow_to_proto
  overflow_lem o a b = record {
    transactions = rw (part_lem _ _ b.transactions) a.transactions;
    services = rw (part_lem _ _ b.services) a.services;
    transactions_estimated =
        written o.overflow_transaction.metrics o.overflow_transaction.estimator;
    services_estimated =
        written o.overflow_service_transaction.metrics o.overflow_service_transaction.estimator;
    spans_estimated = written o.overflow_span.metrics o.overflow_span.estimator;
  }

  pub overflowing_lem :
      (k : Kind) (q : ℕ) (o : Overflow F S)
      → IsMatched o
      → overflowing_of k q (some (overflow_to_proto env o)) ≡ lost_of k q o
  unfolding overflow_to_proto
  overflowing_lem transactions q o b = rw (part_lem _ _ b.transactions) refl
  overflowing_lem services q o b = rw (part_lem _ _ b.services) refl
  overflowing_lem spans q o b = refl
