-- ===== src/Merger/Groups/Transactions.antt =====
-- The counts of the histogram buckets in `mergeTransactionGroups`, aggregators/merger.go.
use apm_aggregation.Base.{ℕ, ◌≡◌, refl, sym, ap, subst, ◌∙◌, Option, none, some, List, [], ◌∷◌}
use apm_aggregation.Base.Lists.{All, length}
use apm_aggregation.Base.Words.{add64, add64-zero}
use apm_aggregation.Base.Panic.{some_eq}
use apm_aggregation.Bars.{Bar, count_at}
use apm_aggregation.Bars.Merge.{count_at-lt}
use apm_aggregation.Pb.{HdrHistogram, TransactionMetrics, KeyedTransactionMetrics}
use apm_aggregation.Models.{OverflowTransaction}
use apm_aggregation.Models.Env.{Env}
use apm_aggregation.Models.Keys.{TransactionAggregationKey-discrete}
use apm_aggregation.Codec.Keys.{transaction_key_from_proto}
use apm_aggregation.Hash.{hash_transaction_key}
use apm_aggregation.Merger.Histogram.Fill.{buckets_of, counts_of}
use apm_aggregation.Merger.Histogram.Slices.{Represents}
use apm_aggregation.Merger.Histogram.Meaning.{merge_histogram-Merges}
use apm_aggregation.Merger.Metrics.{
  zero_histogram, or_new_transaction, merge_histograms, merge_transaction_metrics,
  merge_keyed_transaction_metrics,
}
use apm_aggregation.Merger.Overflow.{overflow_transaction_merge, insert_hash}
use apm_aggregation.Merger.Groups.{
  TransactionGroups, merge_transaction_groups, transaction_overflow,
}
use apm_aggregation.Merger.Groups.Limits.{Charged, merge_groups-Charged}
use apm_aggregation.Merger.Groups.Counts.{sum_list, AllGroups, Accounts, merge_groups-Accounts}

-- The bars of the parallel slices.
abbrev pub zip_bars : List ℕ → List ℕ → List Bar
zip_bars [] cs = []
zip_bars (b ∷ bs) [] = []
zip_bars (b ∷ bs) (c ∷ cs) = record { bucket = b; count = c } ∷ zip_bars bs cs

zip_bars-columns : (xs : List Bar) → zip_bars (buckets_of xs) (counts_of xs) ≡ xs
zip_bars-columns [] = refl
zip_bars-columns (x ∷ xs) = ap (◌∷◌ x) (zip_bars-columns xs)

abbrev pub bars_of : HdrHistogram → List Bar
bars_of h = zip_bars h.buckets h.counts

pub bars_of-Represents : (h : HdrHistogram) (bs : List Bar) → Represents h bs → bars_of h ≡ bs
bars_of-Represents h bs r = rw (r.columns.buckets, r.columns.counts) (zip_bars-columns bs)

-- A histogram that is not set holds nothing; one that is set is well formed.
abbrev pub IsWellFormed : Option HdrHistogram → Type 0
IsWellFormed none = Unit {0}
IsWellFormed (some h) = Represents h (bars_of h)

abbrev pub bars_in : Option HdrHistogram → List Bar
bars_in none = []
bars_in (some h) = bars_of h

abbrev pub histogram_in : Option TransactionMetrics → Option HdrHistogram
histogram_in none = none
histogram_in (some m) = m.histogram

-- A group as combined metrics carry it: its metrics are set.
abbrev pub HasMetrics : Option TransactionMetrics → Type 0
HasMetrics none = ⊥
HasMetrics (some m) = Unit {0}

pub record IsGroup (v : KeyedTransactionMetrics) : Type 0 where
  pub has_metrics : HasMetrics v.metrics
  pub histogram : IsWellFormed (histogram_in v.metrics)

module _ (sb sc : ℕ → ℕ) where
  merged_at :
      (to from : HdrHistogram)
      → IsWellFormed (some to)
      → IsWellFormed (some from)
      → (c : HdrHistogram) × (merge_histograms sb sc (some to) (some from) ≡ some (some c))
        × IsWellFormed (some c)
        × ((q : ℕ)
            → count_at q (bars_of c) ≡ add64 (count_at q (bars_of to)) (count_at q (bars_of from)))
  unfolding merge_histograms
  merged_at to from a b =
      let (c, run, m) = merge_histogram-Merges sb sc to from (bars_of to) (bars_of from) a b in
      let same = bars_of-Represents c _ m.represents in
      (c, rw run, rw same m.represents, λ q. rw same (m.counts q))

  zero_Represents : Represents zero_histogram []
  zero_Represents = record {
    columns = record { buckets = refl; counts = refl };
    sorted = tt;
    ranged = tt;
  }

  -- The two histograms of a merge of metrics, each set or not.
  pub merge_histograms_lem :
      (to from : Option HdrHistogram)
      → IsWellFormed to
      → IsWellFormed from
      → (c : Option HdrHistogram) × (merge_histograms sb sc to from ≡ some c)
        × IsWellFormed c
        × ((q : ℕ)
            → count_at q (bars_in c) ≡ add64 (count_at q (bars_in to)) (count_at q (bars_in from)))
  unfolding merge_histograms count_at
  merge_histograms_lem to none a b =
      (to, refl, a, λ q. sym (add64-zero _ (count_at-lt q (bars_in to))))
  merge_histograms_lem none (some from) a b =
      let (c, run, w, e) = merged_at zero_histogram from zero_Represents b in (some c, run, w, e)
  merge_histograms_lem (some to) (some from) a b =
      let (c, run, w, e) = merged_at to from a b in (some c, run, w, e)

-- What a group, and an overflow bucket, counts in histogram bucket `q`.
abbrev pub group_count : ℕ → KeyedTransactionMetrics → ℕ
group_count q v = count_at q (bars_in (histogram_in v.metrics))

abbrev pub overflow_count : {S : Type 0} → ℕ → OverflowTransaction S → ℕ
overflow_count q o = count_at q (bars_in (histogram_in o.metrics))

abbrev pub IsBucket : {S : Type 0} → OverflowTransaction S → Type 0
IsBucket o = IsWellFormed (histogram_in o.metrics)

pub or_new_histogram :
    (m : Option TransactionMetrics) → (or_new_transaction m).histogram ≡ histogram_in m
or_new_histogram none = refl
or_new_histogram (some m) = refl

module _ {F S D : Type 0} (env : Env F S D) (sb sc : ℕ → ℕ) (hash : D) where
  keyed_cases :
      (to from : Option TransactionMetrics) (v w : KeyedTransactionMetrics) (q : ℕ)
      → v.metrics ≡ to
      → w.metrics ≡ from
      → IsGroup v
      → IsGroup w
      → (c : KeyedTransactionMetrics) × (merge_keyed_transaction_metrics sb sc v w ≡ some c)
        × IsGroup c
        × (group_count q c ≡ add64 (group_count q v) (group_count q w))
  unfolding merge_keyed_transaction_metrics
  keyed_cases to none v w q ev ew a b = absurd (rw ew at b.has_metrics)
  keyed_cases none (some n) v w q ev ew a b = absurd (rw ev at a.has_metrics)
  keyed_cases (some m) (some n) v w q ev ew a b =
      let (h, run, ok, e) =
        merge_histograms_lem sb sc m.histogram n.histogram
          (subst (λ (o : Option TransactionMetrics). IsWellFormed (histogram_in o)) ev a.histogram)
          (subst (λ (o : Option TransactionMetrics). IsWellFormed (histogram_in o)) ew
            b.histogram) in
      (
        record { key = v.key; metrics = some (record { histogram = h }) },
        simp (ev, ew, run),
        record { has_metrics = tt; histogram = ok },
        simp (ev, ew) (e q),
      )

  overflow_cases :
      (from : Option TransactionMetrics) (o : OverflowTransaction S) (v : KeyedTransactionMetrics)
      → v.metrics ≡ from
      → IsBucket o
      → IsGroup v
      → (c : OverflowTransaction S) × (transaction_overflow env sb sc hash o v ≡ some c)
        × IsBucket c
        × ((q : ℕ) → overflow_count q c ≡ add64 (overflow_count q o) (group_count q v))
  unfolding overflow_transaction_merge merge_transaction_metrics
  overflow_cases none o v ev a b = absurd (rw ev at b.has_metrics)
  overflow_cases (some n) o v ev a b =
      let (h, run, ok, e) =
        merge_histograms_lem sb sc (histogram_in o.metrics) n.histogram a (
          subst (λ (m : Option TransactionMetrics). IsWellFormed (histogram_in m)) ev
            b.histogram) in
      (
        record {
          metrics = some (record { histogram = h });
          estimator = insert_hash env o.estimator (env.sum64 (hash_transaction_key env hash v.key));
        },
        simp (ev, or_new_histogram o.metrics, run),
        ok,
        λ q. simp ev (e q),
      )

  keyed_merges :
      (q : ℕ) (v w : KeyedTransactionMetrics)
      → IsGroup v
      → IsGroup w
      → (c : KeyedTransactionMetrics) × (merge_keyed_transaction_metrics sb sc v w ≡ some c)
        × IsGroup c
        × (group_count q c ≡ add64 (group_count q v) (group_count q w))
  keyed_merges q v w = keyed_cases v.metrics w.metrics v w q refl refl

  -- A group goes into the overflow bucket.
  pub IsBucket-overflows :
      (o : OverflowTransaction S) (v : KeyedTransactionMetrics)
      → IsBucket o
      → IsGroup v
      → (c : OverflowTransaction S) × (transaction_overflow env sb sc hash o v ≡ some c)
        × IsBucket c
        × ((q : ℕ) → overflow_count q c ≡ add64 (overflow_count q o) (group_count q v))
  IsBucket-overflows o v = overflow_cases v.metrics o v refl

  Accounts-at :
      (q : ℕ) (st : TransactionGroups env sb sc hash) (from : List KeyedTransactionMetrics)
      → AllGroups IsGroup st.to
      → IsBucket st.overflow
      → All IsGroup from
      → (st' : TransactionGroups env sb sc hash) × (merge_transaction_groups env sb sc hash st from
          ≡ some st')
        × Accounts IsGroup IsBucket
            (group_count q)
            (overflow_count q)
            st
            (sum_list (group_count q) from)
            st'
  unfolding merge_transaction_groups
  Accounts-at q =
      merge_groups-Accounts TransactionAggregationKey-discrete
        (λ from. transaction_key_from_proto from.key) (merge_keyed_transaction_metrics sb sc)
        (transaction_overflow env sb sc hash) IsGroup IsBucket (group_count q) (overflow_count q)
        (keyed_merges q)
        (λ o v a b. let (c, run, ok, e) = IsBucket-overflows o v a b in (c, run, ok, e q))

  Charged-by :
      (st st' : TransactionGroups env sb sc hash) (from : List KeyedTransactionMetrics)
      → st.per_svc.counter ≡ length st.to
      → merge_transaction_groups env sb sc hash st from ≡ some st'
      → Charged st st'
  unfolding merge_transaction_groups
  Charged-by =
      merge_groups-Charged TransactionAggregationKey-discrete
        (λ from. transaction_key_from_proto from.key) (merge_keyed_transaction_metrics sb sc)
        (transaction_overflow env sb sc hash)

  -- When the service constraint counts the groups and every group and the overflow bucket are well
  -- formed, a merge of well-formed transaction groups does not panic, adds no group beyond
  -- either limit, and keeps, for every histogram bucket, the sum over the groups and the overflow
  -- bucket of the counts (modulo 2 ^ 64), to which it adds the counts of the incoming groups.
  pub merge_transaction_groups-Accounts :
      (st : TransactionGroups env sb sc hash) (from : List KeyedTransactionMetrics)
      → st.per_svc.counter ≡ length st.to
      → AllGroups IsGroup st.to
      → IsBucket st.overflow
      → All IsGroup from
      → (st' : TransactionGroups env sb sc hash) × (merge_transaction_groups env sb sc hash st from
          ≡ some st')
        × Charged st st'
        × ((q : ℕ)
            → Accounts IsGroup IsBucket
                (group_count q)
                (overflow_count q)
                st
                (sum_list (group_count q) from)
                st')
  merge_transaction_groups-Accounts st from h a b p =
      let (st', run, first) = Accounts-at 0 st from a b p in
      (
        st',
        run,
        Charged-by st st' from h run,
        λ q.
            let (st'', again, r) = Accounts-at q st from a b p in
            subst
              (Accounts IsGroup IsBucket (group_count q) (overflow_count q) st
                (sum_list (group_count q) from))
              (some_eq (sym again ∙ run)) r,
      )
