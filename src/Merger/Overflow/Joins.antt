-- ===== src/Merger/Overflow/Joins.antt =====
-- `mergeOverflow` of aggregators/merger.go: every metric and estimator of the three buckets.
use apm_aggregation.Base.{◌≡◌, refl, ap, subst, ◌∙◌, sym, Option, none, some, [], ◌∷◌}
use apm_aggregation.Base.{ℕ}
use apm_aggregation.Base.Panic.{>>=-eq-some, some_eq}
use apm_aggregation.Pb.{Text, TransactionMetrics, ServiceTransactionMetrics, SpanMetrics}
use apm_aggregation.Pb
use apm_aggregation.Models.{OverflowTransaction, OverflowServiceTransaction, OverflowSpan, Overflow}
use apm_aggregation.Models.Env.{Env}
use apm_aggregation.Merger.Metrics.{
  merge_histograms, or_new_transaction, or_new_service_transaction, merge_transaction_metrics,
  merge_service_transaction_metrics, merge_span_metrics,
}
use apm_aggregation.Merger.Groups.SpanTotal.{sums}
use apm_aggregation.Merger.Overflow.{
  merge_overflow, overflow_transaction_merge_overflow, overflow_service_transaction_merge_overflow,
  overflow_span_merge_overflow, transaction_part, service_transaction_part, span_part, hll_sketch,
  merge_estimator,
}
use apm_aggregation.Merger.Overflow.Buckets.{Estimated}
use apm_aggregation.Merger.Overflow.Totals.{
  IsOverflow, IsOverflowIn, transactions_in, services_in, Gains, merge_overflow-Gains,
}

module _ {F S D : Type 0} (env : Env F S D) where
  -- An estimator with the bytes of another merged in; one that is not there is a new one.
  abbrev or_new : Option S → S
  or_new none = env.new14
  or_new (some s) = s

  abbrev pub Estimates : Option S → Text → Option S → Type 0
  Estimates old bytes new = new ≡ some (env.merge_sketch (or_new old) (env.unmarshal_sketch bytes))

  -- A bucket stays as it is unless the metrics of its part are set. Histograms are counted elsewhere.
  abbrev pub JoinsTransactions :
      OverflowTransaction S → Option TransactionMetrics → Text → OverflowTransaction S → Type 0
  JoinsTransactions o none bytes c = c ≡ o
  JoinsTransactions o (some m) bytes c = Estimates o.estimator bytes c.estimator

  abbrev failures : OverflowServiceTransaction F S → F
  failures o = (or_new_service_transaction env o.metrics).failure_count

  abbrev successes : OverflowServiceTransaction F S → F
  successes o = (or_new_service_transaction env o.metrics).success_count

  abbrev pub JoinsServices :
      OverflowServiceTransaction F S
      → Option (ServiceTransactionMetrics F)
      → Text
      → OverflowServiceTransaction F S
      → Type 0
  JoinsServices o none bytes c = c ≡ o
  JoinsServices o (some m) bytes c =
      (failures c ≡ env.add (failures o) m.failure_count)
      × (successes c ≡ env.add (successes o) m.success_count)
      × Estimates o.estimator bytes c.estimator

  abbrev pub JoinsSpans :
      OverflowSpan F S → Option (SpanMetrics F) → Text → OverflowSpan F S → Type 0
  JoinsSpans o none bytes c = c ≡ o
  JoinsSpans o (some m) bytes c =
      (c.metrics ≡ some (sums env o.metrics m)) × Estimates o.estimator bytes c.estimator

  -- All three buckets after a merge.
  abbrev pub Joins : Overflow F S → Option (Pb.Overflow F) → Overflow F S → Type 0
  Joins to none o = o ≡ to
  Joins to (some from) o =
      JoinsTransactions to.overflow_transaction from.overflow_transactions
        from.overflow_transactions_estimator o.overflow_transaction
      × JoinsServices to.overflow_service_transaction from.overflow_service_transactions
          from.overflow_service_transactions_estimator o.overflow_service_transaction
      × JoinsSpans to.overflow_span from.overflow_spans from.overflow_spans_estimator
          o.overflow_span

  span_joins :
      (m : Option (SpanMetrics F)) (bytes : Text) (o c : OverflowSpan F S)
      → Estimated m bytes
      → overflow_span_merge_overflow env o (span_part env m bytes) ≡ some c
      → JoinsSpans o m bytes c
  unfolding overflow_span_merge_overflow merge_span_metrics merge_estimator hll_sketch
  span_joins none bytes o c h run = sym (some_eq run)
  span_joins (some m) [] o c h run = absurd (h refl)
  span_joins (some m) (b ∷ bs) o c h run = (
    ap (λ (p : OverflowSpan F S). p.metrics) (sym (some_eq run)),
    ap (λ (p : OverflowSpan F S). p.estimator) (sym (some_eq run)),
  )

  module _ (sb sc : ℕ → ℕ) where
    transaction_joins :
        (m : Option TransactionMetrics) (bytes : Text) (o c : OverflowTransaction S)
        → Estimated m bytes
        → overflow_transaction_merge_overflow env sb sc o (transaction_part env m bytes) ≡ some c
        → JoinsTransactions o m bytes c
    unfolding overflow_transaction_merge_overflow merge_estimator hll_sketch
    transaction_joins none bytes o c h run = sym (some_eq run)
    transaction_joins (some m) [] o c h run = absurd (h refl)
    transaction_joins (some m) (b ∷ bs) o c h run =
        let (merged, _, made) =
          >>=-eq-some (merge_transaction_metrics sb sc (or_new_transaction o.metrics) (some m)) _
            run in
        ap (λ (p : OverflowTransaction S). p.estimator) (sym (some_eq made))

    service_joins :
        (m : Option (ServiceTransactionMetrics F)) (bytes : Text)
        (o c : OverflowServiceTransaction F S)
        → Estimated m bytes
        → overflow_service_transaction_merge_overflow env sb sc o
            (service_transaction_part env m bytes)
          ≡ some c
        → JoinsServices o m bytes c
    unfolding overflow_service_transaction_merge_overflow merge_service_transaction_metrics
        merge_estimator hll_sketch
    service_joins none bytes o c h run = sym (some_eq run)
    service_joins (some m) [] o c h run = absurd (h refl)
    service_joins (some m) (b ∷ bs) o c h run =
        let old = or_new_service_transaction env o.metrics in
        let (merged, first, made) =
          >>=-eq-some (merge_service_transaction_metrics sb sc env old (some m)) _ run in
        let (histogram, _, counted) =
          >>=-eq-some (merge_histograms sb sc old.histogram m.histogram) _ first in
        let e = sym (some_eq made) in
        let d = sym (some_eq counted) in
        (
          ap failures e ∙ ap (λ (x : ServiceTransactionMetrics F). x.failure_count) d,
          ap successes e ∙ ap (λ (x : ServiceTransactionMetrics F). x.success_count) d,
          ap (λ (p : OverflowServiceTransaction F S). p.estimator) e,
        )

    joins_lem :
        (to : Overflow F S) (from : Option (Pb.Overflow F)) (o : Overflow F S)
        → IsOverflowIn from
        → merge_overflow env sb sc to from ≡ some o
        → Joins to from o
    unfolding merge_overflow
    joins_lem to none o a run = sym (some_eq run)
    joins_lem to (some from) o a run =
        let (t, run_t, after) =
          >>=-eq-some
            (overflow_transaction_merge_overflow env sb sc to.overflow_transaction (
              transaction_part env from.overflow_transactions from.overflow_transactions_estimator))
            _ run in
        let (s, run_s, last) =
          >>=-eq-some
            (overflow_service_transaction_merge_overflow env sb sc to.overflow_service_transaction (
              service_transaction_part env from.overflow_service_transactions
                from.overflow_service_transactions_estimator))
            _ after in
        let (p, run_p, made) =
          >>=-eq-some
            (overflow_span_merge_overflow env to.overflow_span
              (span_part env from.overflow_spans from.overflow_spans_estimator))
            _ last in
        let done = transaction_joins _ _ _ t a.transactions_estimated run_t in
        let services = service_joins _ _ _ s a.services_estimated run_s in
        let spans = span_joins _ _ _ p a.spans_estimated run_p in
        subst (Joins to (some from)) (some_eq made) (done, services, spans)

    -- Merging an incoming overflow, well formed and with its estimators, into a well-formed one never
    -- panics. Without an incoming overflow nothing changes, and a bucket stays as it is unless its
    -- incoming metrics are set. If they are, its estimator is the old one, or a new one, with the
    -- incoming one merged in; spans' counts and sums and service transactions' failures and successes
    -- are added up; and the two histograms count in every bucket what they counted and what comes in
    -- together (modulo 2 ^ 64).
    pub merge_overflow-Joins :
        (to : Overflow F S) (from : Option (Pb.Overflow F))
        → IsOverflow to
        → IsOverflowIn from
        → (o : Overflow F S) × (merge_overflow env sb sc to from ≡ some o)
          × Gains to (λ q. transactions_in q from) (λ q. services_in q from) o
          × Joins to from o
    merge_overflow-Joins to from a b =
        let (o, run, gains) = merge_overflow-Gains env sb sc to from a b in
        (o, run, gains, joins_lem to from o b run)
