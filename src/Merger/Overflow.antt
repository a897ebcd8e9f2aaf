-- ===== src/Merger/Overflow.antt =====
-- The overflow buckets: `Merge` and `MergeOverflow` of aggregators/models.go, and `insertHash`,
-- `mergeEstimator`, `mergeOverflow` and `mergeToOverflowFromSIM`.
pub mod Buckets
pub mod Totals
pub mod Joins
use apm_aggregation.Base.{ℕ, Option, none, some, List, [], ◌∷◌}
use apm_aggregation.Base.Panic.{◌>>=◌}
use apm_aggregation.Pb.{
  Text, TransactionMetrics, KeyedTransactionMetrics, ServiceTransactionMetrics,
  KeyedServiceTransactionMetrics, SpanMetrics, KeyedSpanMetrics,
}
use apm_aggregation.Pb
use apm_aggregation.Models.{OverflowTransaction, OverflowServiceTransaction, OverflowSpan, Overflow}
use apm_aggregation.Models.Env.{Env}
use apm_aggregation.Merger.Metrics.{
  or_new_transaction, or_new_service_transaction, or_new_span, merge_transaction_metrics,
  merge_service_transaction_metrics, merge_span_metrics,
}
use apm_aggregation.Hash.{hash_transaction_key, hash_service_transaction_key, hash_span_key}

module _ {F S D : Type 0} (env : Env F S D) where
  abbrev or_new14 : Option S → S
  or_new14 none = env.new14
  or_new14 (some s) = s

  unfoldable pub insert_hash : Option S → ℕ → Option S
  insert_hash to hash = some (env.insert_hash (or_new14 to) hash)

  unfoldable pub merge_estimator : Option S → S → Option S
  merge_estimator to from = some (env.merge_sketch (or_new14 to) from)

  -- `len(estimator) == 0` gives nil.
  unfoldable pub hll_sketch : Text → Option S
  hll_sketch [] = none
  hll_sketch (b ∷ bs) = some (env.unmarshal_sketch (b ∷ bs))

  unfoldable pub hll_bytes : Option S → Text
  hll_bytes none = []
  hll_bytes (some s) = env.marshal_sketch s

  unfoldable pub overflow_span_merge :
      OverflowSpan F S → Option (SpanMetrics F) → ℕ → Option (OverflowSpan F S)
  unfolding insert_hash
  overflow_span_merge o from hash = do
    m ← merge_span_metrics env (or_new_span env o.metrics) from
    some (record { metrics = some m; estimator = insert_hash o.estimator hash })

  span_estimated : OverflowSpan F S → OverflowSpan F S → Option S → Option (OverflowSpan F S)
  unfolding merge_estimator
  span_estimated o from none = some o
  span_estimated o from (some e) = do
    m ← merge_span_metrics env (or_new_span env o.metrics) from.metrics
    some (record { metrics = some m; estimator = merge_estimator o.estimator e })

  unfoldable pub overflow_span_merge_overflow :
      OverflowSpan F S → OverflowSpan F S → Option (OverflowSpan F S)
  unfolding span_estimated
  overflow_span_merge_overflow o from = span_estimated o from from.estimator

  module _ (sb sc : ℕ → ℕ) where
    unfoldable pub overflow_transaction_merge :
        OverflowTransaction S → Option TransactionMetrics → ℕ → Option (OverflowTransaction S)
    unfolding insert_hash
    overflow_transaction_merge o from hash = do
      m ← merge_transaction_metrics sb sc (or_new_transaction o.metrics) from
      some (record { metrics = some m; estimator = insert_hash o.estimator hash })

    transaction_estimated :
        OverflowTransaction S → OverflowTransaction S → Option S → Option (OverflowTransaction S)
    unfolding merge_estimator
    transaction_estimated o from none = some o
    transaction_estimated o from (some e) = do
      m ← merge_transaction_metrics sb sc (or_new_transaction o.metrics) from.metrics
      some (record { metrics = some m; estimator = merge_estimator o.estimator e })

    unfoldable pub overflow_transaction_merge_overflow :
        OverflowTransaction S → OverflowTransaction S → Option (OverflowTransaction S)
    unfolding transaction_estimated
    overflow_transaction_merge_overflow o from = transaction_estimated o from from.estimator

    unfoldable pub overflow_service_transaction_merge :
        OverflowServiceTransaction F S
        → Option (ServiceTransactionMetrics F)
        → ℕ
        → Option (OverflowServiceTransaction F S)
    unfolding insert_hash
    overflow_service_transaction_merge o from hash = do
      m ←
          merge_service_transaction_metrics sb sc env (or_new_service_transaction env o.metrics)
            from
      some (record { metrics = some m; estimator = insert_hash o.estimator hash })

    service_transaction_estimated :
        OverflowServiceTransaction F S
        → OverflowServiceTransaction F S
        → Option S
        → Option (OverflowServiceTransaction F S)
    unfolding merge_estimator
    service_transaction_estimated o from none = some o
    service_transaction_estimated o from (some e) = do
      m ←
          merge_service_transaction_metrics sb sc env (or_new_service_transaction env o.metrics)
            from.metrics
      some (record { metrics = some m; estimator = merge_estimator o.estimator e })

    unfoldable pub overflow_service_transaction_merge_overflow :
        OverflowServiceTransaction F S
        → OverflowServiceTransaction F S
        → Option (OverflowServiceTransaction F S)
    unfolding service_transaction_estimated
    overflow_service_transaction_merge_overflow o from =
        service_transaction_estimated o from from.estimator

  -- `FromProto` of `overflow`, applied to the zero value: each part moves over if its metrics are set.
  abbrev transaction_part : Option TransactionMetrics → Text → OverflowTransaction S
  transaction_part none bytes = record { metrics = none; estimator = none }
  transaction_part (some m) bytes = record { metrics = some m; estimator = hll_sketch bytes }

  abbrev service_transaction_part :
      Option (ServiceTransactionMetrics F) → Text → OverflowServiceTransaction F S
  service_transaction_part none bytes = record { metrics = none; estimator = none }
  service_transaction_part (some m) bytes = record {
    metrics = some m;
    estimator = hll_sketch bytes;
  }

  abbrev span_part : Option (SpanMetrics F) → Text → OverflowSpan F S
  span_part none bytes = record { metrics = none; estimator = none }
  span_part (some m) bytes = record { metrics = some m; estimator = hll_sketch bytes }

  unfoldable pub overflow_from_proto : Pb.Overflow F → Overflow F S
  unfolding hll_sketch
  overflow_from_proto pb = record {
    overflow_transaction =
        transaction_part pb.overflow_transactions pb.overflow_transactions_estimator;
    overflow_service_transaction =
        service_transaction_part pb.overflow_service_transactions
          pb.overflow_service_transactions_estimator;
    overflow_span = span_part pb.overflow_spans pb.overflow_spans_estimator;
  }

  module _ (sb sc : ℕ → ℕ) where
    unfoldable pub merge_overflow : Overflow F S → Option (Pb.Overflow F) → Option (Overflow F S)
    unfolding overflow_from_proto overflow_transaction_merge_overflow
        overflow_service_transaction_merge_overflow overflow_span_merge_overflow
    merge_overflow to none = some to
    merge_overflow to (some fromproto) = do
      let from = overflow_from_proto fromproto
      t ←
          overflow_transaction_merge_overflow sb sc to.overflow_transaction
            from.overflow_transaction
      s ←
          overflow_service_transaction_merge_overflow sb sc to.overflow_service_transaction
            from.overflow_service_transaction
      p ← overflow_span_merge_overflow to.overflow_span from.overflow_span
      some
          (record { overflow_transaction = t; overflow_service_transaction = s; overflow_span = p })

    -- The three loops of `mergeToOverflowFromSIM`.
    sim_transactions :
        D → List KeyedTransactionMetrics → OverflowTransaction S → Option (OverflowTransaction S)
    sim_transactions hash [] o = some o
    sim_transactions hash (k ∷ ks) o = do
      o' ←
          overflow_transaction_merge sb sc o k.metrics
            (env.sum64 (hash_transaction_key env hash k.key))
      sim_transactions hash ks o'

    sim_service_transactions :
        D
        → List (KeyedServiceTransactionMetrics F)
        → OverflowServiceTransaction F S
        → Option (OverflowServiceTransaction F S)
    sim_service_transactions hash [] o = some o
    sim_service_transactions hash (k ∷ ks) o = do
      o' ←
          overflow_service_transaction_merge sb sc o k.metrics
            (env.sum64 (hash_service_transaction_key env hash k.key))
      sim_service_transactions hash ks o'

    sim_spans : D → List (KeyedSpanMetrics F) → OverflowSpan F S → Option (OverflowSpan F S)
    sim_spans hash [] o = some o
    sim_spans hash (k ∷ ks) o = do
      o' ← overflow_span_merge o k.metrics (env.sum64 (hash_span_key env hash k.key))
      sim_spans hash ks o'

    sim_to_overflow :
        Overflow F S → Option (Pb.ServiceInstanceMetrics F) → D → Option (Overflow F S)
    unfolding sim_transactions sim_service_transactions sim_spans overflow_transaction_merge
        overflow_service_transaction_merge overflow_span_merge
    sim_to_overflow to none hash = some to
    sim_to_overflow to (some from) hash = do
      t ← sim_transactions hash from.transaction_metrics to.overflow_transaction
      s ←
          sim_service_transactions hash from.service_transaction_metrics
            to.overflow_service_transaction
      p ← sim_spans hash from.span_metrics to.overflow_span
      some
          (record { overflow_transaction = t; overflow_service_transaction = s; overflow_span = p })

    unfoldable pub merge_to_overflow_from_sim :
        Overflow F S → Pb.KeyedServiceInstanceMetrics F → D → Option (Overflow F S)
    unfolding sim_to_overflow
    merge_to_overflow_from_sim to from hash = sim_to_overflow to from.metrics hash
