-- ===== src/Merger/Groups/ServiceTransactions.antt =====
-- The counts of the histogram buckets in `mergeServiceTransactionGroups`, aggregators/merger.go.
use apm_aggregation.Base.{ℕ, ◌≡◌, refl, sym, subst, ◌∙◌, Option, none, some, List}
use apm_aggregation.Base.Lists.{All, length}
use apm_aggregation.Base.Words.{add64}
use apm_aggregation.Base.Panic.{some_eq}
use apm_aggregation.Bars.{count_at}
use apm_aggregation.Pb.{HdrHistogram, ServiceTransactionMetrics, KeyedServiceTransactionMetrics}
use apm_aggregation.Models.{OverflowServiceTransaction}
use apm_aggregation.Models.Env.{Env}
use apm_aggregation.Models.Keys.{ServiceTransactionAggregationKey-discrete}
use apm_aggregation.Codec.Keys.{service_transaction_key_from_proto}
use apm_aggregation.Hash.{hash_service_transaction_key}
use apm_aggregation.Merger.Metrics.{
  or_new_service_transaction, merge_service_transaction_metrics,
  merge_keyed_service_transaction_metrics,
}
use apm_aggregation.Merger.Overflow.{overflow_service_transaction_merge, insert_hash}
use apm_aggregation.Merger.Groups.{
  ServiceTransactionGroups, merge_service_transaction_groups, service_transaction_overflow,
}
use apm_aggregation.Merger.Groups.Limits.{Charged, merge_groups-Charged}
use apm_aggregation.Merger.Groups.Counts.{sum_list, AllGroups, Accounts, merge_groups-Accounts}
use apm_aggregation.Merger.Groups.Transactions.{IsWellFormed, bars_in, merge_histograms_lem}

abbrev pub service_histogram_in :
    {F : Type 0} → Option (ServiceTransactionMetrics F) → Option HdrHistogram
service_histogram_in none = none
service_histogram_in (some m) = m.histogram

abbrev pub HasServiceMetrics : {F : Type 0} → Option (ServiceTransactionMetrics F) → Type 0
HasServiceMetrics none = ⊥
HasServiceMetrics (some m) = Unit {0}

pub record IsServiceGroup {F : Type 0} (v : KeyedServiceTransactionMetrics F) : Type 0 where
  pub has_metrics : HasServiceMetrics v.metrics
  pub histogram : IsWellFormed (service_histogram_in v.metrics)

-- What a group, and an overflow bucket, counts in histogram bucket `q`.
abbrev pub service_count : {F : Type 0} → ℕ → KeyedServiceTransactionMetrics F → ℕ
service_count q v = count_at q (bars_in (service_histogram_in v.metrics))

abbrev pub service_overflow_count : {F S : Type 0} → ℕ → OverflowServiceTransaction F S → ℕ
service_overflow_count q o = count_at q (bars_in (service_histogram_in o.metrics))

abbrev pub IsServiceBucket : {F S : Type 0} → OverflowServiceTransaction F S → Type 0
IsServiceBucket o = IsWellFormed (service_histogram_in o.metrics)

module _ {F S D : Type 0} (env : Env F S D) where
  pub or_new_service_histogram :
      (m : Option (ServiceTransactionMetrics F))
      → (or_new_service_transaction env m).histogram ≡ service_histogram_in m
  or_new_service_histogram none = refl
  or_new_service_histogram (some m) = refl

  -- The counts of failures and successes after a merge, over those of `to`.
  abbrev pub counted :
      ServiceTransactionMetrics F
      → ServiceTransactionMetrics F
      → Option HdrHistogram
      → ServiceTransactionMetrics F
  counted to from h = record {
    histogram = h;
    failure_count = env.add to.failure_count from.failure_count;
    success_count = env.add to.success_count from.success_count;
  }

module _ {F S D : Type 0} (env : Env F S D) (sb sc : ℕ → ℕ) (hash : D) where
  keyed_cases :
      (to from : Option (ServiceTransactionMetrics F)) (v w : KeyedServiceTransactionMetrics F)
      (q : ℕ)
      → v.metrics ≡ to
      → w.metrics ≡ from
      → IsServiceGroup v
      → IsServiceGroup w
      → (c : KeyedServiceTransactionMetrics F) × (merge_keyed_service_transaction_metrics sb sc env
            v w
          ≡ some c)
        × IsServiceGroup c
        × (service_count q c ≡ add64 (service_count q v) (service_count q w))
  unfolding merge_keyed_service_transaction_metrics
  keyed_cases to none v w q ev ew a b = absurd (rw ew at b.has_metrics)
  keyed_cases none (some n) v w q ev ew a b = absurd (rw ev at a.has_metrics)
  keyed_cases (some m) (some n) v w q ev ew a b =
      let (h, run, ok, e) =
        merge_histograms_lem sb sc m.histogram n.histogram
          (subst
            (λ (o : Option (ServiceTransactionMetrics F)). IsWellFormed (service_histogram_in o)) ev
            a.histogram)
          (subst
            (λ (o : Option (ServiceTransactionMetrics F)). IsWellFormed (service_histogram_in o)) ew
            b.histogram) in
      (
        record { key = v.key; metrics = some (counted env m n h) },
        simp (ev, ew, run),
        record { has_metrics = tt; histogram = ok },
        simp (ev, ew) (e q),
      )

  overflow_cases :
      (from : Option (ServiceTransactionMetrics F)) (o : OverflowServiceTransaction F S)
      (v : KeyedServiceTransactionMetrics F)
      → v.metrics ≡ from
      → IsServiceBucket o
      → IsServiceGroup v
      → (c : OverflowServiceTransaction F S) × (service_transaction_overflow env sb sc hash o v
          ≡ some c)
        × IsServiceBucket c
        × ((q : ℕ)
            → service_overflow_count q c ≡ add64 (service_overflow_count q o) (service_count q v))
  unfolding overflow_service_transaction_merge merge_service_transaction_metrics
  overflow_cases none o v ev a b = absurd (rw ev at b.has_metrics)
  overflow_cases (some n) o v ev a b =
      let (h, run, ok, e) =
        merge_histograms_lem sb sc (service_histogram_in o.metrics) n.histogram a (
          subst
            (λ (m : Option (ServiceTransactionMetrics F)). IsWellFormed (service_histogram_in m)) ev
            b.histogram) in
      (
        record {
          metrics = some (counted env (or_new_service_transaction env o.metrics) n h);
          estimator =
              insert_hash env o.estimator (env.sum64 (hash_service_transaction_key env hash v.key));
        },
        simp (ev, or_new_service_histogram env o.metrics, run),
        ok,
        λ q. simp ev (e q),
      )

  keyed_merges :
      (q : ℕ) (v w : KeyedServiceTransactionMetrics F)
      → IsServiceGroup v
      → IsServiceGroup w
      → (c : KeyedServiceTransactionMetrics F) × (merge_keyed_service_transaction_metrics sb sc env
            v w
          ≡ some c)
        × IsServiceGroup c
        × (service_count q c ≡ add64 (service_count q v) (service_count q w))
  keyed_merges q v w = keyed_cases v.metrics w.metrics v w q refl refl

  -- A group goes into the overflow bucket.
  pub IsServiceBucket-overflows :
      (o : OverflowServiceTransaction F S) (v : KeyedServiceTransactionMetrics F)
      → IsServiceBucket o
      → IsServiceGroup v
      → (c : OverflowServiceTransaction F S) × (service_transaction_overflow env sb sc hash o v
          ≡ some c)
        × IsServiceBucket c
        × ((q : ℕ)
            → service_overflow_count q c ≡ add64 (service_overflow_count q o) (service_count q v))
  IsServiceBucket-overflows o v = overflow_cases v.metrics o v refl

  Accounts-at :
      (q : ℕ) (st : ServiceTransactionGroups env sb sc hash)
      (from : List (KeyedServiceTransactionMetrics F))
      → AllGroups IsServiceGroup st.to
      → IsServiceBucket st.overflow
      → All IsServiceGroup from
      → (st' : ServiceTransactionGroups env sb sc hash) × (merge_service_transaction_groups env sb
            sc hash st from
          ≡ some st')
        × Accounts IsServiceGroup IsServiceBucket
            (service_count q)
            (service_overflow_count q)
            st
            (sum_list (service_count q) from)
            st'
  unfolding merge_service_transaction_groups
  Accounts-at q =
      merge_groups-Accounts ServiceTransactionAggregationKey-discrete
        (λ from. service_transaction_key_from_proto from.key)
        (merge_keyed_service_transaction_metrics sb sc env)
        (service_transaction_overflow env sb sc hash) IsServiceGroup IsServiceBucket
        (service_count q) (service_overflow_count q) (keyed_merges q)
        (λ o v a b. let (c, run, ok, e) = IsServiceBucket-overflows o v a b in (c, run, ok, e q))

  Charged-by :
      (st st' : ServiceTransactionGroups env sb sc hash)
      (from : List (KeyedServiceTransactionMetrics F))
      → st.per_svc.counter ≡ length st.to
      → merge_service_transaction_groups env sb sc hash st from ≡ some st'
      → Charged st st'
  unfolding merge_service_transaction_groups
  Charged-by =
      merge_groups-Charged ServiceTransactionAggregationKey-discrete
        (λ from. service_transaction_key_from_proto from.key)
        (merge_keyed_service_transaction_metrics sb sc env)
        (service_transaction_overflow env sb sc hash)

  -- When the service constraint counts the groups and every group and the overflow bucket are well
  -- formed, a merge of well-formed service transaction groups does not panic, adds no group beyond
  -- either limit, and keeps, for every histogram bucket, the sum over the groups and the overflow
  -- bucket of the counts (modulo 2 ^ 64), to which it adds the counts of the incoming groups.
  pub merge_service_transaction_groups-Accounts :
      (st : ServiceTransactionGroups env sb sc hash)
      (from : List (KeyedServiceTransactionMetrics F))
      → st.per_svc.counter ≡ length st.to
      → AllGroups IsServiceGroup st.to
      → IsServiceBucket st.overflow
      → All IsServiceGroup from
      → (st' : ServiceTransactionGroups env sb sc hash) × (merge_service_transaction_groups env sb
            sc hash st from
          ≡ some st')
        × Charged st st'
        × ((q : ℕ)
            → Accounts IsServiceGroup IsServiceBucket
                (service_count q)
                (service_overflow_count q)
                st
                (sum_list (service_count q) from)
                st')
  merge_service_transaction_groups-Accounts st from h a b p =
      let (st', run, first) = Accounts-at 0 st from a b p in
      (
        st',
        run,
        Charged-by st st' from h run,
        λ q.
            let (st'', again, r) = Accounts-at q st from a b p in
            subst
              (Accounts IsServiceGroup IsServiceBucket (service_count q) (service_overflow_count q)
                st (sum_list (service_count q) from))
              (some_eq (sym again ∙ run)) r,
      )
