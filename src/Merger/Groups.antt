-- ===== src/Merger/Groups.antt =====
-- The merges of one map of groups, aggregators/merger.go: `mergeTransactionGroups`,
-- `mergeServiceTransactionGroups` and `mergeSpanGroups`. The first two have one body, `merge_groups`,
-- over the key, the merge of two groups and the overflow bucket. The shared global constraint is
-- passed along.
pub mod Limits
pub mod Counts
pub mod Transactions
pub mod ServiceTransactions
pub mod Spans
pub mod SpanTotal
use apm_aggregation.Base.{ℕ, ◌/◌, Bool, true, false, ◌||◌, Option, none, some, List, [], ◌∷◌}
use apm_aggregation.Base.Tests.{leb, if◌then◌else◌}
use apm_aggregation.Base.Panic.{◌>>=◌}
use apm_aggregation.Base.Assoc.{lookup, insert}
use apm_aggregation.Constraint.{Constraint, maxed, add, value, limit_of}
use apm_aggregation.Pb.{KeyedTransactionMetrics, KeyedServiceTransactionMetrics, KeyedSpanMetrics}
use apm_aggregation.Models.{OverflowTransaction, OverflowServiceTransaction, OverflowSpan}
use apm_aggregation.Models.Env.{Env}
use apm_aggregation.Models.Keys.{
  TransactionAggregationKey, ServiceTransactionAggregationKey, SpanAggregationKey,
  TransactionAggregationKey-discrete, ServiceTransactionAggregationKey-discrete,
  SpanAggregationKey-discrete,
}
use apm_aggregation.Codec.Keys.{
  transaction_key_from_proto, service_transaction_key_from_proto, span_key_from_proto,
}
use apm_aggregation.Hash.{hash_transaction_key, hash_service_transaction_key, hash_span_key}
use apm_aggregation.Merger.Metrics.{
  merge_keyed_transaction_metrics, merge_keyed_service_transaction_metrics,
  merge_keyed_span_metrics,
}
use apm_aggregation.Merger.Overflow.{
  overflow_transaction_merge, overflow_service_transaction_merge, overflow_span_merge,
}

-- The map, the two constraints and the overflow bucket.
pub record Groups (K V O : Type 0) : Type 0 where
  pub to : List (K × V)
  pub per_svc : Constraint
  pub global : Constraint
  pub overflow : O

module _ {K V O : Type 0} (eq : Discrete K) where
  -- A key that is not in the map: it overflows, or both constraints are charged for a new group.
  unfoldable pub add_group : (O → V → Option O) → Groups K V O → K → V → Option (Groups K V O)
  unfolding maxed add
  add_group overflow st k from =
      if maxed st.per_svc || maxed st.global
      then (do o ← overflow st.overflow from; some (record st { overflow = o }))
      else some (record st {
        to = insert eq k from st.to;
        per_svc = add st.per_svc 1;
        global = add st.global 1;
      })

  unfoldable pub merge_group : (V → V → Option V) → Groups K V O → K → V → V → Option (Groups K V O)
  merge_group merge_keyed st k to from = do
    v ← merge_keyed to from
    some (record st { to = insert eq k v st.to })

  module _ (key : V → K) (merge_keyed : V → V → Option V) (overflow : O → V → Option O) where
    merge_at : Option V → Groups K V O → V → Option (Groups K V O)
    unfolding add_group merge_group
    merge_at none st from = add_group overflow st (key from) from
    merge_at (some to) st from = merge_group merge_keyed st (key from) to from

    unfoldable pub merge_one : Groups K V O → V → Option (Groups K V O)
    unfolding merge_at
    merge_one st from = merge_at (lookup eq (key from) st.to) st from

    unfoldable pub merge_groups : Groups K V O → List V → Option (Groups K V O)
    unfolding merge_one
    merge_groups st [] = some st
    merge_groups st (from ∷ rest) = do st' ← merge_one st from; merge_groups st' rest

module _ {F S D : Type 0} (env : Env F S D) (sb sc : ℕ → ℕ) (hash : D) where
  abbrev pub TransactionGroups : Type 0
  TransactionGroups =
      Groups TransactionAggregationKey KeyedTransactionMetrics (OverflowTransaction S)

  abbrev pub transaction_overflow :
      OverflowTransaction S → KeyedTransactionMetrics → Option (OverflowTransaction S)
  transaction_overflow o from =
      overflow_transaction_merge env sb sc o from.metrics
        (env.sum64 (hash_transaction_key env hash from.key))

  unfoldable pub merge_transaction_groups :
      TransactionGroups → List KeyedTransactionMetrics → Option TransactionGroups
  merge_transaction_groups =
      merge_groups TransactionAggregationKey-discrete (λ from. transaction_key_from_proto from.key)
        (merge_keyed_transaction_metrics sb sc) transaction_overflow

  abbrev pub ServiceTransactionGroups : Type 0
  ServiceTransactionGroups =
      Groups ServiceTransactionAggregationKey (KeyedServiceTransactionMetrics F)
        (OverflowServiceTransaction F S)

  abbrev pub service_transaction_overflow :
      OverflowServiceTransaction F S
      → KeyedServiceTransactionMetrics F
      → Option (OverflowServiceTransaction F S)
  service_transaction_overflow o from =
      overflow_service_transaction_merge env sb sc o from.metrics
        (env.sum64 (hash_service_transaction_key env hash from.key))

  unfoldable pub merge_service_transaction_groups :
      ServiceTransactionGroups
      → List (KeyedServiceTransactionMetrics F)
      → Option ServiceTransactionGroups
  merge_service_transaction_groups =
      merge_groups ServiceTransactionAggregationKey-discrete
        (λ from. service_transaction_key_from_proto from.key)
        (merge_keyed_service_transaction_metrics sb sc env) service_transaction_overflow

module _ {F S D : Type 0} (env : Env F S D) (hash : D) where
  abbrev pub SpanGroups : Type 0
  SpanGroups = Groups SpanAggregationKey (KeyedSpanMetrics F) (OverflowSpan F S)

  -- `span.name` is dropped once half of the limit of the service is reached.
  unfoldable pub drop_span_name : Constraint → KeyedSpanMetrics F → KeyedSpanMetrics F
  unfolding value limit_of
  drop_span_name c from =
      if leb (limit_of c / 2) (value c)
      then record from { key = record (from.key) { span_name = [] } }
      else from

  abbrev pub span_overflow : OverflowSpan F S → KeyedSpanMetrics F → Option (OverflowSpan F S)
  span_overflow o from =
      overflow_span_merge env o from.metrics (env.sum64 (hash_span_key env hash from.key))

  abbrev span_key : KeyedSpanMetrics F → SpanAggregationKey
  span_key from = span_key_from_proto from.key

  -- The second look-up, with the name dropped or not.
  merge_span_again :
      Option (KeyedSpanMetrics F) → SpanGroups → KeyedSpanMetrics F → Option SpanGroups
  unfolding add_group merge_group
  merge_span_again none st from =
      add_group SpanAggregationKey-discrete span_overflow st (span_key from) from
  merge_span_again (some to) st from =
      merge_group SpanAggregationKey-discrete (merge_keyed_span_metrics env) st (span_key from) to
        from

  merge_span_at : Option (KeyedSpanMetrics F) → SpanGroups → KeyedSpanMetrics F → Option SpanGroups
  unfolding merge_span_again merge_group drop_span_name
  merge_span_at (some to) st from =
      merge_group SpanAggregationKey-discrete (merge_keyed_span_metrics env) st (span_key from) to
        from
  merge_span_at none st from =
      let from' = drop_span_name st.per_svc from in
      merge_span_again (lookup SpanAggregationKey-discrete (span_key from') st.to) st from'

  unfoldable pub merge_span : SpanGroups → KeyedSpanMetrics F → Option SpanGroups
  unfolding merge_span_at
  merge_span st from =
      merge_span_at (lookup SpanAggregationKey-discrete (span_key from) st.to) st from

  unfoldable pub merge_span_groups : SpanGroups → List (KeyedSpanMetrics F) → Option SpanGroups
  unfolding merge_span
  merge_span_groups st [] = some st
  merge_span_groups st (from ∷ rest) = do st' ← merge_span st from; merge_span_groups st' rest
