-- ===== src/Merger/Overflow/Totals.antt =====
-- `mergeOverflow` and `mergeToOverflowFromSIM` of aggregators/merger.go on well-formed overflows:
-- what the buckets count afterwards.
use apm_aggregation.Base.{ℕ, ◌≡◌, refl, sym, ◌∙◌, Option, none, some, List, [], ◌∷◌}
use apm_aggregation.Base.Lists.{All}
use apm_aggregation.Base.Words.{add64, add64-zero, add64_assoc}
use apm_aggregation.Bars.{count_at}
use apm_aggregation.Bars.Merge.{count_at-lt}
use apm_aggregation.Pb.{KeyedTransactionMetrics, KeyedServiceTransactionMetrics, KeyedSpanMetrics}
use apm_aggregation.Pb
use apm_aggregation.Models.{OverflowTransaction, OverflowServiceTransaction, OverflowSpan, Overflow}
use apm_aggregation.Models.Env.{Env}
use apm_aggregation.Merger.Overflow.{
  merge_overflow, sim_transactions, sim_service_transactions, sim_spans, sim_to_overflow,
  merge_to_overflow_from_sim,
}
use apm_aggregation.Merger.Overflow.Buckets.{
  Estimated, transaction_part_lem, service_transaction_part_lem, span_part_lem,
}
use apm_aggregation.Merger.Groups.Counts.{sum_list}
use apm_aggregation.Merger.Groups.Transactions.{
  IsWellFormed, bars_in, histogram_in, IsBucket, overflow_count, IsGroup, group_count,
  IsBucket-overflows,
}
use apm_aggregation.Merger.Groups.ServiceTransactions.{
  service_histogram_in, IsServiceBucket, service_overflow_count, IsServiceGroup, service_count,
  IsServiceBucket-overflows,
}
use apm_aggregation.Merger.Groups.SpanTotal.{IsSpanGroup, span_overflows}

pub record IsOverflow {F S : Type 0} (o : Overflow F S) : Type 0 where
  pub transactions : IsBucket o.overflow_transaction
  pub services : IsServiceBucket o.overflow_service_transaction

-- An overflow as `ToProto` writes it: an estimator with all metrics.
pub record IsOverflowProto {F : Type 0} (o : Pb.Overflow F) : Type 0 where
  pub transactions : IsWellFormed (histogram_in o.overflow_transactions)
  pub services : IsWellFormed (service_histogram_in o.overflow_service_transactions)
  pub transactions_estimated : Estimated o.overflow_transactions o.overflow_transactions_estimator
  pub services_estimated :
      Estimated o.overflow_service_transactions o.overflow_service_transactions_estimator
  pub spans_estimated : Estimated o.overflow_spans o.overflow_spans_estimator

abbrev pub IsOverflowIn : {F : Type 0} → Option (Pb.Overflow F) → Type 0
IsOverflowIn none = Unit {0}
IsOverflowIn (some o) = IsOverflowProto o

-- What an incoming overflow counts in histogram bucket `q`.
abbrev pub transactions_in : {F : Type 0} → ℕ → Option (Pb.Overflow F) → ℕ
transactions_in q none = 0
transactions_in q (some o) = count_at q (bars_in (histogram_in o.overflow_transactions))

abbrev pub services_in : {F : Type 0} → ℕ → Option (Pb.Overflow F) → ℕ
services_in q none = 0
services_in q (some o) = count_at q (bars_in (service_histogram_in o.overflow_service_transactions))

-- An incoming service instance: metrics that are set, with well-formed groups.
abbrev pub IsInstanceIn : {F : Type 0} → Option (Pb.ServiceInstanceMetrics F) → Type 0
IsInstanceIn none = ⊥
IsInstanceIn (some m) =
    All IsGroup m.transaction_metrics
    × All IsServiceGroup m.service_transaction_metrics
    × All IsSpanGroup m.span_metrics

abbrev pub instance_transactions : {F : Type 0} → ℕ → Option (Pb.ServiceInstanceMetrics F) → ℕ
instance_transactions q none = 0
instance_transactions q (some m) = sum_list (group_count q) m.transaction_metrics

abbrev pub instance_services : {F : Type 0} → ℕ → Option (Pb.ServiceInstanceMetrics F) → ℕ
instance_services q none = 0
instance_services q (some m) = sum_list (service_count q) m.service_transaction_metrics

-- An overflow that took in `t q` transactions and `s q` service transactions at bucket `q`.
pub record Gains {F S : Type 0} (o : Overflow F S) (t s : ℕ → ℕ) (o' : Overflow F S) : Type 0 where
  pub well_formed : IsOverflow o'
  pub transactions :
      (q : ℕ)
      → overflow_count q o'.overflow_transaction
        ≡ add64 (overflow_count q o.overflow_transaction) (t q)
  pub services :
      (q : ℕ)
      → service_overflow_count q o'.overflow_service_transaction
        ≡ add64 (service_overflow_count q o.overflow_service_transaction) (s q)

module _ {F S D : Type 0} (env : Env F S D) (sb sc : ℕ → ℕ) where
  -- Merging an incoming overflow, well formed and with its estimators, into a well-formed one never
  -- panics. The result is well formed, and its two histograms count in every bucket what they counted
  -- and what comes in together (modulo 2 ^ 64).
  pub merge_overflow-Gains :
      (to : Overflow F S) (from : Option (Pb.Overflow F))
      → IsOverflow to
      → IsOverflowIn from
      → (o : Overflow F S) × (merge_overflow env sb sc to from ≡ some o)
        × Gains to (λ q. transactions_in q from) (λ q. services_in q from) o
  unfolding merge_overflow
  merge_overflow-Gains to none a b = (
    to,
    refl,
    record {
      well_formed = a;
      transactions = λ q.
          sym
            (add64-zero _ (count_at-lt q (bars_in (histogram_in to.overflow_transaction.metrics))));
      services = λ q. sym (
          add64-zero _ (
            count_at-lt q
              (bars_in (service_histogram_in to.overflow_service_transaction.metrics))));
    },
  )
  merge_overflow-Gains to (some from) a b =
      let (t, run_t, ok_t, e_t) =
        transaction_part_lem env sb sc from.overflow_transactions
          from.overflow_transactions_estimator to.overflow_transaction a.transactions b.transactions
          b.transactions_estimated in
      let (s, run_s, ok_s, e_s) =
        service_transaction_part_lem env sb sc from.overflow_service_transactions
          from.overflow_service_transactions_estimator to.overflow_service_transaction a.services
          b.services b.services_estimated in
      let (p, run_p) =
        span_part_lem env from.overflow_spans from.overflow_spans_estimator to.overflow_span
          b.spans_estimated in
      (
        record { overflow_transaction = t; overflow_service_transaction = s; overflow_span = p },
        rw run_t (rw run_s (rw run_p refl)),
        record {
          well_formed = record { transactions = ok_t; services = ok_s };
          transactions = e_t;
          services = e_s;
        },
      )

  module _ (hash : D) where
    sim_transactions_lem :
        (ks : List KeyedTransactionMetrics) (o : OverflowTransaction S)
        → IsBucket o
        → All IsGroup ks
        → (c : OverflowTransaction S) × (sim_transactions env sb sc hash ks o ≡ some c)
          × IsBucket c
          × ((q : ℕ)
              → overflow_count q c ≡ add64 (overflow_count q o) (sum_list (group_count q) ks))
    unfolding sim_transactions sum_list
    sim_transactions_lem [] o a b =
        (o, refl, a, λ q. sym (add64-zero _ (count_at-lt q (bars_in (histogram_in o.metrics)))))
    sim_transactions_lem (k ∷ ks) o a b =
        let (mid, one, ok, e) = IsBucket-overflows env sb sc hash o k a b.0 in
        let (c, run, okc, ec) = sim_transactions_lem ks mid ok b.1 in
        (c, rw one run, okc, λ q. ec q ∙ rw (e q) (add64_assoc _ _ _))

    sim_service_transactions_lem :
        (ks : List (KeyedServiceTransactionMetrics F)) (o : OverflowServiceTransaction F S)
        → IsServiceBucket o
        → All IsServiceGroup ks
        → (c : OverflowServiceTransaction F S) × (sim_service_transactions env sb sc hash ks o
            ≡ some c)
          × IsServiceBucket c
          × ((q : ℕ)
              → service_overflow_count q c
                ≡ add64 (service_overflow_count q o) (sum_list (service_count q) ks))
    unfolding sim_service_transactions sum_list
    sim_service_transactions_lem [] o a b = (
      o,
      refl,
      a,
      λ q. sym (add64-zero _ (count_at-lt q (bars_in (service_histogram_in o.metrics)))),
    )
    sim_service_transactions_lem (k ∷ ks) o a b =
        let (mid, one, ok, e) = IsServiceBucket-overflows env sb sc hash o k a b.0 in
        let (c, run, okc, ec) = sim_service_transactions_lem ks mid ok b.1 in
        (c, rw one run, okc, λ q. ec q ∙ rw (e q) (add64_assoc _ _ _))

    sim_spans_lem :
        (ks : List (KeyedSpanMetrics F)) (o : OverflowSpan F S)
        → All IsSpanGroup ks
        → (c : OverflowSpan F S) × (sim_spans env sb sc hash ks o ≡ some c)
    unfolding sim_spans
    sim_spans_lem [] o b = (o, refl)
    sim_spans_lem (k ∷ ks) o b =
        let (mid, one, _, _) = span_overflows env hash k.metrics o k refl tt b.0 in
        let (c, run) = sim_spans_lem ks mid b.1 in (c, rw one run)

    sim_to_overflow-Gains :
        (to : Overflow F S) (from : Option (Pb.ServiceInstanceMetrics F))
        → IsOverflow to
        → IsInstanceIn from
        → (o : Overflow F S) × (sim_to_overflow env sb sc to from hash ≡ some o)
          × Gains to (λ q. instance_transactions q from) (λ q. instance_services q from) o
    unfolding sim_to_overflow
    sim_to_overflow-Gains to none a b = absurd b
    sim_to_overflow-Gains to (some from) a b =
        let (t, run_t, ok_t, e_t) =
          sim_transactions_lem from.transaction_metrics to.overflow_transaction a.transactions
            b.0 in
        let (s, run_s, ok_s, e_s) =
          sim_service_transactions_lem from.service_transaction_metrics
            to.overflow_service_transaction a.services b.1 in
        let (p, run_p) = sim_spans_lem from.span_metrics to.overflow_span b.2 in
        (
          record { overflow_transaction = t; overflow_service_transaction = s; overflow_span = p },
          rw run_t (rw run_s (rw run_p refl)),
          record {
            well_formed = record { transactions = ok_t; services = ok_s };
            transactions = e_t;
            services = e_s;
          },
        )

    -- Every group of the instance goes into the overflow.
    pub merge_to_overflow_from_sim-Gains :
        (to : Overflow F S) (from : Pb.KeyedServiceInstanceMetrics F)
        → IsOverflow to
        → IsInstanceIn from.metrics
        → (o : Overflow F S) × (merge_to_overflow_from_sim env sb sc to from hash ≡ some o)
          × Gains to
              (λ q. instance_transactions q from.metrics)
              (λ q. instance_services q from.metrics)
              o
    unfolding merge_to_overflow_from_sim
    merge_to_overflow_from_sim-Gains to from a b = sim_to_overflow-Gains to from.metrics a b
