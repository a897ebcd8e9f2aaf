-- ===== src/Converter/Processed.antt =====
-- What `processEvent` of aggregators/converter.go leaves for an event.
use apm_aggregation.Base.{ℕ, ◌<◌, refl, ap, ◌∙◌, ◌≢◌, inl, inr, [], ◌∷◌, arith}
use apm_aggregation.Base.Tests.{Bool-cases, ◌==◌}
use apm_aggregation.Base.Words.{add64, zero-add64, add64-zero}
use apm_aggregation.Bars.{count_at}
use apm_aggregation.Bars.Merge.{count_at-lt}
use apm_aggregation.Pb.{HdrHistogram, TransactionAggregationKey, ServiceTransactionAggregationKey}
use apm_aggregation.Merger.Groups.Transactions.{bars_of}
use apm_aggregation.Merger.Combined.Invariant.{Kind, transactions, services, spans, by_kind}
use apm_aggregation.Converter.Partitions.{EventMetricsBuilder, find_or_append}
use apm_aggregation.Converter.Builders.{
  BuilderMetrics, get_event_metrics_builder, update, with_transaction, with_service_transaction,
}
use apm_aggregation.Converter.Built.{Built, builders_count}

-- A transaction and a service transaction that count the same.
abbrev pub both : (ℕ → ℕ) → Kind → ℕ → ℕ
both x transactions q = x q
both x services q = x q
both x spans q = 0

abbrev pub nothing_counted : Kind → ℕ → ℕ
nothing_counted k q = 0

abbrev pub bars_count : HdrHistogram → ℕ → ℕ
bars_count h q = count_at q (bars_of h)

module _ {F : Type 0} (n : ℕ) (h : HdrHistogram) where
  abbrev builder : ℕ → BuilderMetrics F → EventMetricsBuilder (BuilderMetrics F)
  builder p m = record { partition = p; metrics = m }

  -- After the transaction and the service transaction, in one partition.
  together :
      (p : ℕ) (key : TransactionAggregationKey) (old : HdrHistogram)
      (sm : ServiceTransactionAggregationKey × F × F)
      → p < n
      → Built n h (both (bars_count h)) (
          builder p
            (with_service_transaction sm h (with_transaction key h (get_event_metrics_builder old)))
          ∷ [])
  unfolding builders_count
  together p key old sm l = record {
    partitioned = (l, tt, tt);
    built = (record { used = inr refl; room = omega arith }, tt);
    counts =
        by_kind _ (λ q. add64-zero (bars_count h q) (count_at-lt q (bars_of h)))
          (λ q. add64-zero (bars_count h q) (count_at-lt q (bars_of h)))
          (λ q. add64-zero 0 (omega arith));
  }

  -- In two partitions.
  apart :
      (p r : ℕ) (key : TransactionAggregationKey) (old : HdrHistogram)
      (sm : ServiceTransactionAggregationKey × F × F)
      → p < n
      → r < n
      → p ≢ r
      → Built n h (both (bars_count h)) (
          builder p (with_transaction key h (get_event_metrics_builder old))
          ∷ builder r (with_service_transaction sm h (get_event_metrics_builder old))
          ∷ [])
  unfolding builders_count
  apart p r key old sm l k d = record {
    partitioned = (l, (d, tt), (k, tt, tt));
    built = (
      record { used = inr refl; room = omega arith },
      (record { used = inr refl; room = omega arith }, tt),
    );
    counts =
        by_kind _
          (λ q.
            ap (add64 (bars_count h q)) (add64-zero 0 (omega arith))
            ∙ add64-zero (bars_count h q) (count_at-lt q (bars_of h)))
          (λ q.
            ap (add64 0) (add64-zero (bars_count h q) (count_at-lt q (bars_of h)))
            ∙ zero-add64 (bars_count h q) (count_at-lt q (bars_of h)))
          (λ q. ap (add64 0) (add64-zero 0 (omega arith)) ∙ add64-zero 0 (omega arith));
  }

  -- The two writes, for the places that two hashes give.
  pub placed :
      (p r : ℕ) (key : TransactionAggregationKey) (old : HdrHistogram)
      (sm : ServiceTransactionAggregationKey × F × F)
      → p < n
      → r < n
      → Built n h (both (bars_count h)) (
          let at =
            find_or_append
              (get_event_metrics_builder old)
              r
              0
              (builder p (with_transaction key h (get_event_metrics_builder old)) ∷ []) in
          update (with_service_transaction sm h) at.0 at.1)
  unfolding find_or_append update
  placed p r key old sm l k = elim (Bool-cases (p == r)) [
    | inl same ↦ rw same (together p key old sm l)
    | inr other ↦ rw other (apart p r key old sm l k (λ e. ground (arith, other, e)))
  ]
