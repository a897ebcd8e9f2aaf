-- ===== src/Merger/Metrics.antt =====
-- Merging of single metrics in aggregators/merger.go. A nil `from` where the code reads through it
-- is a panic. What a message pool hands out is the zero message. `sb` and `sc` are the stale
-- contents of backing arrays, as in Merger/Histogram.
use apm_aggregation.Base.{ℕ, Option, none, some, []}
use apm_aggregation.Base.Panic.{◌>>=◌}
use apm_aggregation.Pb.{
  HdrHistogram, TransactionMetrics, KeyedTransactionMetrics, ServiceTransactionMetrics,
  KeyedServiceTransactionMetrics, SpanMetrics, KeyedSpanMetrics,
}
use apm_aggregation.Models.Env.{Env}
use apm_aggregation.Merger.Histogram.{merge_histogram}

abbrev pub zero_histogram : HdrHistogram
zero_histogram = record {
  lowest_trackable_value = 0;
  highest_trackable_value = 0;
  significant_figures = 0;
  counts = [];
  buckets = [];
}

abbrev pub zero_transaction_metrics : TransactionMetrics
zero_transaction_metrics = record { histogram = none }

abbrev pub or_new_transaction : Option TransactionMetrics → TransactionMetrics
or_new_transaction none = zero_transaction_metrics
or_new_transaction (some m) = m

module _ {F S D : Type 0} (env : Env F S D) where
  abbrev pub or_new_service_transaction :
      Option (ServiceTransactionMetrics F) → ServiceTransactionMetrics F
  or_new_service_transaction none = record {
    histogram = none;
    failure_count = env.zero;
    success_count = env.zero;
  }
  or_new_service_transaction (some m) = m

  abbrev pub or_new_span : Option (SpanMetrics F) → SpanMetrics F
  or_new_span none = record { count = env.zero; sum = env.zero }
  or_new_span (some m) = m

module _ (sb sc : ℕ → ℕ) where
  -- The two tests on the histogram pointers that both transaction merges make.
  unfoldable pub merge_histograms :
      Option HdrHistogram → Option HdrHistogram → Option (Option HdrHistogram)
  merge_histograms to none = some to
  merge_histograms none (some from) = do
    h ← merge_histogram sb sc zero_histogram from
    some (some h)
  merge_histograms (some to) (some from) = do h ← merge_histogram sb sc to from; some (some h)

  unfoldable pub merge_transaction_metrics :
      TransactionMetrics → Option TransactionMetrics → Option TransactionMetrics
  unfolding merge_histograms
  merge_transaction_metrics to none = none
  merge_transaction_metrics to (some from) = do
    h ← merge_histograms to.histogram from.histogram
    some (record { histogram = h })

  keyed_transaction :
      KeyedTransactionMetrics → Option TransactionMetrics → Option KeyedTransactionMetrics
  unfolding merge_transaction_metrics
  keyed_transaction to none = some to
  keyed_transaction to (some from) = do
    m ← merge_transaction_metrics (or_new_transaction to.metrics) (some from)
    some (record to { metrics = some m })

  unfoldable pub merge_keyed_transaction_metrics :
      KeyedTransactionMetrics → KeyedTransactionMetrics → Option KeyedTransactionMetrics
  unfolding keyed_transaction
  merge_keyed_transaction_metrics to from = keyed_transaction to from.metrics

  module _ {F S D : Type 0} (env : Env F S D) where
    unfoldable pub merge_service_transaction_metrics :
        ServiceTransactionMetrics F
        → Option (ServiceTransactionMetrics F)
        → Option (ServiceTransactionMetrics F)
    unfolding merge_histograms
    merge_service_transaction_metrics to none = none
    merge_service_transaction_metrics to (some from) = do
      h ← merge_histograms to.histogram from.histogram
      some (record {
        histogram = h;
        failure_count = env.add to.failure_count from.failure_count;
        success_count = env.add to.success_count from.success_count;
      })

    keyed_service_transaction :
        KeyedServiceTransactionMetrics F
        → Option (ServiceTransactionMetrics F)
        → Option (KeyedServiceTransactionMetrics F)
    unfolding merge_service_transaction_metrics
    keyed_service_transaction to none = some to
    keyed_service_transaction to (some from) = do
      m ← merge_service_transaction_metrics (or_new_service_transaction env to.metrics) (some from)
      some (record to { metrics = some m })

    unfoldable pub merge_keyed_service_transaction_metrics :
        KeyedServiceTransactionMetrics F
        → KeyedServiceTransactionMetrics F
        → Option (KeyedServiceTransactionMetrics F)
    unfolding keyed_service_transaction
    merge_keyed_service_transaction_metrics to from = keyed_service_transaction to from.metrics

module _ {F S D : Type 0} (env : Env F S D) where
  unfoldable pub merge_span_metrics :
      SpanMetrics F → Option (SpanMetrics F) → Option (SpanMetrics F)
  merge_span_metrics to none = none
  merge_span_metrics to (some from) =
      some (record { count = env.add to.count from.count; sum = env.add to.sum from.sum })

  keyed_span : KeyedSpanMetrics F → Option (SpanMetrics F) → Option (KeyedSpanMetrics F)
  unfolding merge_span_metrics
  keyed_span to none = some to
  keyed_span to (some from) = do
    m ← merge_span_metrics (or_new_span env to.metrics) (some from)
    some (record to { metrics = some m })

  unfoldable pub merge_keyed_span_metrics :
      KeyedSpanMetrics F → KeyedSpanMetrics F → Option (KeyedSpanMetrics F)
  unfolding keyed_span
  merge_keyed_span_metrics to from = keyed_span to from.metrics
