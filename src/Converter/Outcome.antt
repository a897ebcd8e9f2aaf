-- ===== src/Converter/Outcome.antt =====
-- What `processEvent` of aggregators/converter.go leaves for any event.
use native.Mathlib.Nat.{mod-lt}
use apm_aggregation.Base.{
  ℕ, suc, ◌%◌, ◌^◌, ◌<◌, ◌≡◌, refl, ap, ◌∙◌, inl, inr, ◌||◌, Option, some, List, [], ◌∷◌, arith,
}
use apm_aggregation.Base.Tests.{Bool-cases, if◌then◌else◌}
use apm_aggregation.Base.Words.{add64-zero}
use apm_aggregation.Base.Panic.{◌>>=◌}
use apm_aggregation.Base.Search.{Slices}
use apm_aggregation.Bars.{Bar}
use apm_aggregation.Pb.{
  HdrHistogram, SpanAggregationKey, SpanMetrics, ServiceTransactionAggregationKey,
}
use apm_aggregation.Models.Env.{Env}
use apm_aggregation.Hash.{hash_transaction_key, hash_service_transaction_key, hash_span_key}
use apm_aggregation.Merger.Histogram.Slices.{Represents}
use apm_aggregation.Merger.Groups.Transactions.{bars_of}
use apm_aggregation.Merger.Combined.Invariant.{Kind, transactions, services, spans, by_kind}
use apm_aggregation.Converter.Partitions.{EventMetricsBuilder, get, find_or_append}
use apm_aggregation.Converter.Event.{
  EventType, transaction_event, span_event, other_event, DroppedSpanStats, ApmEvent, Floats,
  set_transaction_key, set_service_transaction_key, set_dropped_span_stats_key,
  set_dropped_span_stats_metrics, set_span_key, set_span_metrics,
}
use apm_aggregation.Converter.Builders.{
  BuilderMetrics, Builders, Partitioned, get_event_metrics_builder, update, with_transaction,
  with_service_transaction, with_dropped, with_span, single_histogram, outcome_counts,
  add_transaction_metrics, add_service_transaction_metrics, add_dropped_span_stats_metrics,
  add_all_dropped, add_span_metrics, add_service_summary_metrics, add_both, add_transaction_event,
  process_as, process_event, no_target,
}
use apm_aggregation.Converter.Histogram.{duration_count, single_histogram-IsSingle}
use apm_aggregation.Converter.Built.{
  Built, builders_count, get-Built, update-Built, with_dropped-IsBuilt, with_dropped_counts,
}
use apm_aggregation.Converter.Processed.{both, nothing_counted, bars_count, placed}

-- What an event counts at index `q`: a transaction that stands for a positive number of them counts its
-- duration as a transaction and as a service transaction, if the duration can be recorded.
unfoldable pub event_count : {F : Type 0} → Floats F → ApmEvent F → EventType → Kind → ℕ → ℕ
unfolding duration_count
event_count f e transaction_event =
    if f.not_positive e.transaction_representative_count
    then nothing_counted
    else both (λ q. duration_count q e.duration (f.scaled e.transaction_representative_count))
event_count f e span_event = nothing_counted
event_count f e other_event = nothing_counted

module _ {F S D : Type 0} (env : Env F S D) (f : Floats F) (lib : Slices Bar) (hash : D)
    (old : HdrHistogram) (m : ℕ) (below : suc m < 2 ^ 16) where
  -- The builder of an event for `suc m` partitions.
  abbrev pub for_event : Partitioned D
  for_event = record { service_instance_hash = hash; partitions = suc m; old_histogram = old }

  -- The builders that a call leaves.
  abbrev pub Leaves : Option (Builders F) → HdrHistogram → (Kind → ℕ → ℕ) → Type 0
  Leaves r h x = (bs : Builders F) × (r ≡ some bs) × Built (suc m) h x bs

  part-lt : (x : ℕ) → x % suc m % 2 ^ 16 < suc m
  part-lt x = let less : x % suc m < suc m = mod-lt x (omega arith) in omega (arith, less, below)

  empty-Built : (h : HdrHistogram) → Built {F = F} (suc m) h nothing_counted []
  unfolding builders_count
  empty-Built h = record { partitioned = tt; built = tt; counts = λ k q. refl }

  transaction-Leaves :
      (e : ApmEvent F) (count : F) (h : HdrHistogram)
      → single_histogram f lib e.duration count ≡ some h
      → Leaves (add_both env f lib for_event e count []) h (both (bars_count h))
  unfolding add_transaction_metrics add_service_transaction_metrics get find_or_append update
  transaction-Leaves e count h run =
      let key = set_transaction_key e in
      let service = set_service_transaction_key e in
      let counts = outcome_counts f e.outcome count in
      let x = env.sum64 (hash_transaction_key env hash key) in
      let y = env.sum64 (hash_service_transaction_key env hash service) in
      let sm : ServiceTransactionAggregationKey × F × F = (service, counts.0, counts.1) in
      let first : EventMetricsBuilder (BuilderMetrics F) = record {
        partition = x % suc m % 2 ^ 16;
        metrics = with_transaction key h (get_event_metrics_builder old);
      } in
      let at = find_or_append (get_event_metrics_builder old) (y % suc m % 2 ^ 16) 0 (first ∷ []) in
      (
        update (with_service_transaction sm h) at.0 at.1,
        rw run refl,
        placed (suc m) h (x % suc m % 2 ^ 16) (y % suc m % 2 ^ 16) key old sm (part-lt x)
            (part-lt y),
      )

  dropped-Leaves :
      (ds : List DroppedSpanStats) (count : F) (h : HdrHistogram) (x : Kind → ℕ → ℕ)
      (bs : Builders F)
      → Built (suc m) h x bs
      → Leaves (add_all_dropped env f lib for_event ds count bs) h x
  unfolding add_all_dropped add_dropped_span_stats_metrics
  dropped-Leaves [] count h x bs t = (bs, refl, t)
  dropped-Leaves (d ∷ ds) count h x bs t =
      let key = set_dropped_span_stats_key d in
      let (i, bs', run, u) =
        get-Built (suc m) (env.sum64 (hash_span_key env hash key)) old h x bs (omega arith) below
          t in
      let s : SpanAggregationKey × SpanMetrics F =
        (key, set_dropped_span_stats_metrics f d count) in
      let v =
        update-Built (with_dropped s) (suc m) i h x bs' (with_dropped-IsBuilt s h)
          (with_dropped_counts s) u in
      let (end, more, w) = dropped-Leaves ds count h x (update (with_dropped s) i bs') v in
      (
        end,
        ap
              (λ (g : Option (ℕ × Builders F)). do
                at ← g
                add_all_dropped env f lib for_event ds count (update (with_dropped s) at.0 at.1))
              run
            ∙ more,
        w,
      )

  span-Leaves :
      (e : ApmEvent F) (count : F) (h : HdrHistogram)
      → Leaves (add_span_metrics env f lib for_event e count []) h nothing_counted
  unfolding add_span_metrics get find_or_append update builders_count
  span-Leaves e count h =
      let key = set_span_key e in
      let x = env.sum64 (hash_span_key env hash key) in
      let s : SpanAggregationKey × SpanMetrics F = (key, set_span_metrics f e count) in
      let b : EventMetricsBuilder (BuilderMetrics F) = record {
        partition = x % suc m % 2 ^ 16;
        metrics = with_span s (get_event_metrics_builder old);
      } in
      (
        b ∷ [],
        refl,
        record {
          partitioned = (part-lt x, tt, tt);
          built = (record { used = inl (refl, refl); room = omega arith }, tt);
          counts =
              by_kind _ (λ q. add64-zero 0 (omega arith)) (λ q. add64-zero 0 (omega arith))
                (λ q. add64-zero 0 (omega arith));
        },
      )

  summary-Leaves :
      (h : HdrHistogram)
      → Leaves (add_service_summary_metrics env f lib for_event []) h nothing_counted
  unfolding add_service_summary_metrics
  summary-Leaves h =
      let (i, bs, run, t) =
        get-Built (suc m) (env.sum64 hash) old h nothing_counted [] (omega arith) below
          (empty-Built h) in
      (bs, ap (λ (g : Option (ℕ × Builders F)). do at ← g; some at.1) run, t)

  -- A well-formed histogram behind the builders of an event.
  abbrev pub Outcome : Option (Builders F) → (Kind → ℕ → ℕ) → Type 0
  Outcome r x = (h : HdrHistogram) × Represents h (bars_of h) × Leaves r h x

  nothing :
      (r : Option (Builders F))
      → ((h : HdrHistogram) → Leaves r h nothing_counted)
      → Outcome r nothing_counted
  nothing r g =
      let (h, run, s) = single_histogram-IsSingle f lib 0 f.zero (omega arith) in
      (h, s.well_formed, g h)

  recount :
      (r : Option (Builders F)) (h : HdrHistogram) (x y : Kind → ℕ → ℕ)
      → ((k : Kind) (q : ℕ) → x k q ≡ y k q)
      → Leaves r h x
      → Leaves r h y
  recount r h x y e (bs, run, t) = (
    bs,
    run,
    record { partitioned = t.partitioned; built = t.built; counts = λ k q. t.counts k q ∙ e k q },
  )

  both-cong : (x y : ℕ → ℕ) → ((q : ℕ) → x q ≡ y q) → (k : Kind) (q : ℕ) → both x k q ≡ both y k q
  both-cong x y e transactions q = e q
  both-cong x y e services q = e q
  both-cong x y e spans q = refl

  transaction-Outcome :
      (e : ApmEvent F)
      → Outcome
          (process_as env f lib for_event transaction_event e [])
          (event_count f e transaction_event)
  unfolding event_count
  transaction-Outcome e =
      let count = e.transaction_representative_count in
      elim (Bool-cases (f.not_positive count)) [
        | inl none_ ↦ rw none_ (nothing (some []) (λ h. ([], refl, empty-Built h)))
        | inr some_ ↦
            let (h, run, s) = single_histogram-IsSingle f lib e.duration count e.duration-lt in
            let (b, two, t) = transaction-Leaves e count h run in
            let (bs, more, u) =
              dropped-Leaves e.dropped_spans_stats count h (both (bars_count h)) b t in
            rw some_ (
              h,
              s.well_formed,
              recount (add_transaction_event env f lib for_event e count []) h (both (bars_count h))
                  (both (λ q. duration_count q e.duration (f.scaled count)))
                  (both-cong (bars_count h) (λ q. duration_count q e.duration (f.scaled count))
                    s.counts)
                  (
                    bs,
                    ap
                          (λ (r : Option (Builders F)). do
                            b ← r
                            add_all_dropped env f lib for_event e.dropped_spans_stats count b)
                          two
                        ∙ more,
                    u,
                  ),
            )
      ]

  process_as-Outcome :
      (t : EventType) (e : ApmEvent F)
      → Outcome (process_as env f lib for_event t e []) (event_count f e t)
  unfolding event_count
  process_as-Outcome transaction_event e = transaction-Outcome e
  process_as-Outcome span_event e =
      let count = e.span_representative_count in
      elim (Bool-cases (f.not_positive count || no_target env f lib for_event e)) [
        | inl none_ ↦ rw none_ (nothing (some []) (λ h. ([], refl, empty-Built h)))
        | inr some_ ↦
            rw some_
              (nothing (add_span_metrics env f lib for_event e count []) (span-Leaves e count))
      ]
  process_as-Outcome other_event e =
      nothing (add_service_summary_metrics env f lib for_event []) summary-Leaves

  pub process_event-Outcome :
      (e : ApmEvent F) → Outcome (process_event env f lib for_event e []) (event_count f e e.type_)
  unfolding process_event
  process_event-Outcome e = process_as-Outcome e.type_ e
