-- ===== src/Merger/Overflow/Buckets.antt =====
-- `MergeOverflow` of aggregators/models.go on the parts of a protobuf overflow.
use apm_aggregation.Base.{ℕ, ◌≡◌, refl, sym, ◌≢◌, Option, none, some, [], ◌∷◌}
use apm_aggregation.Base.Words.{add64, add64-zero}
use apm_aggregation.Bars.{count_at}
use apm_aggregation.Bars.Merge.{count_at-lt}
use apm_aggregation.Pb.{Text, TransactionMetrics, ServiceTransactionMetrics, SpanMetrics}
use apm_aggregation.Models.{OverflowTransaction, OverflowServiceTransaction, OverflowSpan}
use apm_aggregation.Models.Env.{Env}
use apm_aggregation.Merger.Metrics.{
  merge_transaction_metrics, merge_service_transaction_metrics, merge_span_metrics,
  or_new_service_transaction,
}
use apm_aggregation.Merger.Overflow.{
  overflow_transaction_merge_overflow, overflow_service_transaction_merge_overflow,
  overflow_span_merge_overflow, transaction_part, service_transaction_part, span_part, hll_sketch,
  merge_estimator,
}
use apm_aggregation.Merger.Groups.Transactions.{
  IsWellFormed, bars_in, histogram_in, IsBucket, overflow_count, merge_histograms_lem,
  or_new_histogram,
}
use apm_aggregation.Merger.Groups.ServiceTransactions.{
  service_histogram_in, IsServiceBucket, service_overflow_count, or_new_service_histogram, counted,
}
use apm_aggregation.Merger.Groups.SpanTotal.{sums}

-- Metrics that are set come with an estimator.
abbrev pub Estimated {ℓ} : {A : Type ℓ} → Option A → Text → Type 0
Estimated none bytes = Unit {0}
Estimated (some m) bytes = bytes ≢ []

module _ {F S D : Type 0} (env : Env F S D) where
  pub span_part_lem :
      (m : Option (SpanMetrics F)) (bytes : Text) (o : OverflowSpan F S)
      → Estimated m bytes
      → (c : OverflowSpan F S) × (overflow_span_merge_overflow env o (span_part env m bytes)
          ≡ some c)
  unfolding overflow_span_merge_overflow merge_span_metrics hll_sketch
  span_part_lem none bytes o h = (o, refl)
  span_part_lem (some m) [] o h = absurd (h refl)
  span_part_lem (some m) (b ∷ bs) o h = (
    record {
      metrics = some (sums env o.metrics m);
      estimator = merge_estimator env o.estimator (env.unmarshal_sketch (b ∷ bs));
    },
    refl,
  )

  module _ (sb sc : ℕ → ℕ) where
    -- The metrics of the part are merged in, if they are set.
    pub transaction_part_lem :
        (m : Option TransactionMetrics) (bytes : Text) (o : OverflowTransaction S)
        → IsBucket o
        → IsWellFormed (histogram_in m)
        → Estimated m bytes
        → (c : OverflowTransaction S) × (overflow_transaction_merge_overflow env sb sc o
              (transaction_part env m bytes)
            ≡ some c)
          × IsBucket c
          × ((q : ℕ)
              → overflow_count q c
                ≡ add64 (overflow_count q o) (count_at q (bars_in (histogram_in m))))
    unfolding overflow_transaction_merge_overflow merge_transaction_metrics hll_sketch count_at
    transaction_part_lem none bytes o a b h =
        (o, refl, a, λ q. sym (add64-zero _ (count_at-lt q (bars_in (histogram_in o.metrics)))))
    transaction_part_lem (some m) [] o a b h = absurd (h refl)
    transaction_part_lem (some m) (y ∷ ys) o a b h =
        let (c, run, ok, e) = merge_histograms_lem sb sc (histogram_in o.metrics) m.histogram a b in
        (
          record {
            metrics = some (record { histogram = c });
            estimator = merge_estimator env o.estimator (env.unmarshal_sketch (y ∷ ys));
          },
          simp (or_new_histogram o.metrics, run),
          ok,
          e,
        )

    pub service_transaction_part_lem :
        (m : Option (ServiceTransactionMetrics F)) (bytes : Text)
        (o : OverflowServiceTransaction F S)
        → IsServiceBucket o
        → IsWellFormed (service_histogram_in m)
        → Estimated m bytes
        → (c : OverflowServiceTransaction F S) × (overflow_service_transaction_merge_overflow env sb
              sc o
              (service_transaction_part env m bytes)
            ≡ some c)
          × IsServiceBucket c
          × ((q : ℕ)
              → service_overflow_count q c
                ≡ add64
                    (service_overflow_count q o)
                    (count_at q (bars_in (service_histogram_in m))))
    unfolding overflow_service_transaction_merge_overflow merge_service_transaction_metrics
        hll_sketch count_at
    service_transaction_part_lem none bytes o a b h = (
      o,
      refl,
      a,
      λ q. sym (add64-zero _ (count_at-lt q (bars_in (service_histogram_in o.metrics)))),
    )
    service_transaction_part_lem (some m) [] o a b h = absurd (h refl)
    service_transaction_part_lem (some m) (y ∷ ys) o a b h =
        let (c, run, ok, e) =
          merge_histograms_lem sb sc (service_histogram_in o.metrics) m.histogram a b in
        (
          record {
            metrics = some (counted env (or_new_service_transaction env o.metrics) m c);
            estimator = merge_estimator env o.estimator (env.unmarshal_sketch (y ∷ ys));
          },
          simp (or_new_service_histogram env o.metrics, run),
          ok,
          e,
        )
