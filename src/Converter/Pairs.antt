-- ===== src/Converter/Pairs.antt =====
-- The pairs of keys and metrics that `EventToCombinedMetrics` of aggregators/converter.go makes of
-- builders.
use apm_aggregation.Base.{
  ℕ, ◌^◌, ◌<◌, ◌≡◌, refl, sym, ap, subst, ◌≢◌, ◌⊎◌, inl, inr, Option, none, some, List, [], ◌∷◌,
  map, arith,
}
use apm_aggregation.Base.Lists.{All}
use apm_aggregation.Base.Words.{add64, add64-zero}
use apm_aggregation.Bars.{count_at}
use apm_aggregation.Bars.Merge.{count_at-lt}
use apm_aggregation.Pb.{
  Text, HdrHistogram, SpanAggregationKey, SpanMetrics, KeyedSpanMetrics, ServiceAggregationKey,
  ServiceInstanceAggregationKey, TransactionAggregationKey, ServiceTransactionAggregationKey,
}
use apm_aggregation.Pb
use apm_aggregation.Codec.Key.{CombinedMetricsKey}
use apm_aggregation.Merger.Histogram.Slices.{Represents}
use apm_aggregation.Merger.Groups.Counts.{sum_list}
use apm_aggregation.Merger.Groups.Transactions.{bars_of, IsGroup, group_count}
use apm_aggregation.Merger.Groups.ServiceTransactions.{IsServiceGroup, service_count}
use apm_aggregation.Merger.Groups.SpanTotal.{IsSpanGroup}
use apm_aggregation.Merger.Combined.Invariant.{Kind, transactions, services, spans, incoming_of}
use apm_aggregation.Merger.Combined.InstanceLoop.{instances_count}
use apm_aggregation.Merger.Combined.Merge.{services_count}
use apm_aggregation.Merger.Combined.Whole.{
  IsCombinedIn, combined_count, all_count, none_overflowing,
}
use apm_aggregation.Converter.Partitions.{EventMetricsBuilder}
use apm_aggregation.Converter.Get.{IsPartitioned}
use apm_aggregation.Converter.Builders.{BuilderMetrics, Builders}
use apm_aggregation.Converter.Produce.{
  transaction_slice, service_transaction_slice, keyed_span, instance_metrics, combined_metrics,
  pair,
}
use apm_aggregation.Converter.Built.{IsBuilt, builders_count, counted, present}

transaction_in :
    (t : Option TransactionAggregationKey) (g h : HdrHistogram)
    → (t ≡ none) ⊎ (g ≡ h)
    → Represents h (bars_of h)
    → All IsGroup (transaction_slice t g)
transaction_in none g h u r = tt
transaction_in (some k) g h (inl e) r = absurd (ground (arith, e))
transaction_in (some k) g h (inr e) r =
    let well = subst (λ (g : HdrHistogram). Represents g (bars_of g)) (sym e) r in
    (record { has_metrics = tt; histogram = well }, tt)

transaction_sum :
    (q : ℕ) (t : Option TransactionAggregationKey) (g : HdrHistogram)
    → sum_list (group_count q) (transaction_slice t g) ≡ present t (count_at q (bars_of g))
unfolding sum_list
transaction_sum q none g = refl
transaction_sum q (some k) g = add64-zero (count_at q (bars_of g)) (count_at-lt q (bars_of g))

once_more : (a : ℕ) → a < 2 ^ 64 → add64 0 (add64 (add64 0 (add64 a 0)) 0) ≡ a
unfolding add64
once_more a l = omega (arith, l)

present_count-lt : {A : Type 0} (o : Option A) (a : ℕ) → a < 2 ^ 64 → present o a < 2 ^ 64
present_count-lt none a l = omega arith
present_count-lt (some x) a l = l

module _ {F : Type 0} where
  -- The histogram behind the metrics that are there.
  used_cases :
      {h : HdrHistogram} {m : BuilderMetrics F}
      → IsBuilt h m
      → ((m.transaction ≡ none) ⊎ (m.histogram ≡ h))
        × ((m.service_transaction ≡ none) ⊎ (m.histogram ≡ h))
  used_cases b = elim b.used [
    | inl unused ↦ (inl unused.0, inl unused.1)
    | inr same ↦ (inr same, inr same)
  ]

  -- Each with the key of the event but for the partition, which is below `n` and its own.
  abbrev pub IsSpread :
      ℕ → CombinedMetricsKey → List (CombinedMetricsKey × Pb.CombinedMetrics F) → Type 0
  IsSpread n k [] = Unit {0}
  IsSpread n k ((j, m) ∷ rest) =
      ((j ≡ record k { partition_id = j.partition_id }) × (j.partition_id < n))
      × All (λ (jm : CombinedMetricsKey × Pb.CombinedMetrics F). j.partition_id ≢ jm.0.partition_id)
          rest
      × IsSpread n k rest

  abbrev pub metrics_of :
      List (CombinedMetricsKey × Pb.CombinedMetrics F) → List (Pb.CombinedMetrics F)
  metrics_of = map (λ (km : CombinedMetricsKey × Pb.CombinedMetrics F). km.1)

  -- Pairs of keys and metrics for the callback: the metrics are as the merger wants them and count `x`.
  pub record Produces (n : ℕ) (k : CombinedMetricsKey) (x : Kind → ℕ → ℕ)
      (cms : List (CombinedMetricsKey × Pb.CombinedMetrics F)) : Type 0 where
    pub keys : IsSpread n k cms
    pub combined : All IsCombinedIn (metrics_of cms)
    pub counts : (k : Kind) (q : ℕ) → all_count k q (metrics_of cms) ≡ x k q

  spans_in : (ss : List (SpanAggregationKey × SpanMetrics F)) → All IsSpanGroup (map keyed_span ss)
  spans_in [] = tt
  spans_in ((k, m) ∷ ss) = (tt, spans_in ss)

  service_in :
      (s : Option (ServiceTransactionAggregationKey × F × F)) (g h : HdrHistogram)
      → (s ≡ none) ⊎ (g ≡ h)
      → Represents h (bars_of h)
      → All IsServiceGroup (service_transaction_slice s g)
  service_in none g h u r = tt
  service_in (some (k, a, b)) g h (inl e) r = absurd (ground (arith, e))
  service_in (some (k, a, b)) g h (inr e) r =
      let well = subst (λ (g : HdrHistogram). Represents g (bars_of g)) (sym e) r in
      (record { has_metrics = tt; histogram = well }, tt)

  combined_metrics-IsCombinedIn :
      (sk : ServiceAggregationKey) (sik : ServiceInstanceAggregationKey) (total : F) (youngest : ℕ)
      (m : BuilderMetrics F) (h : HdrHistogram)
      → IsBuilt h m
      → Represents h (bars_of h)
      → IsCombinedIn (combined_metrics sk sik total youngest m)
  unfolding combined_metrics instance_metrics
  combined_metrics-IsCombinedIn sk sik total youngest m h b r =
      let used = used_cases b in
      record {
        services = (
          (
            tt,
            (
              (
                transaction_in m.transaction m.histogram h used.0 r,
                service_in m.service_transaction m.histogram h used.1 r,
                spans_in m.spans,
              ),
              tt,
            ),
          ),
          tt,
        );
        overflow = tt;
        estimated = tt;
      }

  counted-lt : (k : Kind) (q : ℕ) (m : BuilderMetrics F) → counted k q m < 2 ^ 64
  counted-lt transactions q m =
      present_count-lt m.transaction _ (count_at-lt q (bars_of m.histogram))
  counted-lt services q m =
      present_count-lt m.service_transaction _ (count_at-lt q (bars_of m.histogram))
  counted-lt spans q m = omega arith

  service_sum :
      (q : ℕ) (s : Option (ServiceTransactionAggregationKey × F × F)) (g : HdrHistogram)
      → sum_list (service_count q) (service_transaction_slice s g)
        ≡ present s (count_at q (bars_of g))
  unfolding sum_list
  service_sum q none g = refl
  service_sum q (some (k, a, b)) g = add64-zero (count_at q (bars_of g)) (count_at-lt q (bars_of g))

  incoming_counted :
      (k : Kind) (q : ℕ) (m : BuilderMetrics F)
      → incoming_of k q (some (instance_metrics m)) ≡ counted k q m
  unfolding instance_metrics
  incoming_counted transactions q m = transaction_sum q m.transaction m.histogram
  incoming_counted services q m = service_sum q m.service_transaction m.histogram
  incoming_counted spans q m = refl

  combined_count-counted :
      (sk : ServiceAggregationKey) (sik : ServiceInstanceAggregationKey) (total : F) (youngest : ℕ)
      (m : BuilderMetrics F) (k : Kind) (q : ℕ)
      → combined_count k q (combined_metrics sk sik total youngest m) ≡ counted k q m
  unfolding combined_metrics services_count instances_count
  combined_count-counted sk sik total youngest m k q =
      rw (none_overflowing F k q, incoming_counted k q m)
        (once_more (counted k q m) (counted-lt k q m))

  pub all_pairs-IsCombinedIn :
      (k : CombinedMetricsKey) (sk : ServiceAggregationKey) (sik : ServiceInstanceAggregationKey)
      (total : F) (youngest : ℕ) (h : HdrHistogram) (bs : Builders F)
      → All (λ (b : EventMetricsBuilder (BuilderMetrics F)). IsBuilt h b.metrics) bs
      → Represents h (bars_of h)
      → All IsCombinedIn (metrics_of (map (pair k sk sik total youngest) bs))
  all_pairs-IsCombinedIn k sk sik total youngest h [] b r = tt
  all_pairs-IsCombinedIn k sk sik total youngest h (c ∷ bs) b r = (
    combined_metrics-IsCombinedIn sk sik total youngest c.metrics h b.0 r,
    all_pairs-IsCombinedIn k sk sik total youngest h bs b.1 r,
  )

  pub all_count-pairs :
      (k : CombinedMetricsKey) (sk : ServiceAggregationKey) (sik : ServiceInstanceAggregationKey)
      (total : F) (youngest : ℕ) (j : Kind) (q : ℕ) (bs : Builders F)
      → all_count j q (metrics_of (map (pair k sk sik total youngest) bs)) ≡ builders_count j q bs
  unfolding all_count builders_count
  all_count-pairs k sk sik total youngest j q [] = refl
  all_count-pairs k sk sik total youngest j q (c ∷ bs) =
      rw (combined_count-counted sk sik total youngest c.metrics j q)
        (ap (add64 (counted j q c.metrics)) (all_count-pairs k sk sik total youngest j q bs))

  apart_pairs :
      (k : CombinedMetricsKey) (sk : ServiceAggregationKey) (sik : ServiceInstanceAggregationKey)
      (total : F) (youngest p : ℕ) (bs : Builders F)
      → All (λ (c : EventMetricsBuilder (BuilderMetrics F)). p ≢ c.partition) bs
      → All
          (λ (jm : CombinedMetricsKey × Pb.CombinedMetrics F). p ≢ jm.0.partition_id)
          (map (pair k sk sik total youngest) bs)
  apart_pairs k sk sik total youngest p [] a = tt
  apart_pairs k sk sik total youngest p (c ∷ bs) a =
      (a.0, apart_pairs k sk sik total youngest p bs a.1)

  pub pairs-IsSpread :
      (n : ℕ) (k : CombinedMetricsKey) (sk : ServiceAggregationKey)
      (sik : ServiceInstanceAggregationKey) (total : F) (youngest : ℕ) (bs : Builders F)
      → IsPartitioned n bs
      → IsSpread n k (map (pair k sk sik total youngest) bs)
  pairs-IsSpread n k sk sik total youngest [] a = tt
  pairs-IsSpread n k sk sik total youngest (c ∷ bs) (l, d, r) = (
    (refl, l),
    apart_pairs k sk sik total youngest c.partition bs d,
    pairs-IsSpread n k sk sik total youngest bs r,
  )
