-- ===== src/Converter/Built.antt =====
-- What the builders of an event hold after the calls of `processEvent`, aggregators/converter.go.
use apm_aggregation.Base.{
  ℕ, zero, suc, ◌%◌, ◌^◌, ◌<◌, ◌≤◌, ◌≡◌, refl, sym, ap, ◌∙◌, subst, ◌≢◌, ◌⊎◌, inl, inr, Option,
  none, some, List, [], ◌∷◌, ◌++◌, arith,
}
use apm_aggregation.Base.Tests.{Bool-cases, ◌==◌}
use apm_aggregation.Base.Lists.{All, All-append, length, length-append}
use apm_aggregation.Base.Words.{add64, add64-lt}
use apm_aggregation.Pb.{HdrHistogram, SpanAggregationKey, SpanMetrics}
use apm_aggregation.Bars.{count_at}
use apm_aggregation.Merger.Groups.Transactions.{bars_of}
use apm_aggregation.Merger.Combined.Invariant.{Kind, transactions, services, spans}
use apm_aggregation.Converter.Partitions.{EventMetricsBuilder, get}
use apm_aggregation.Converter.Get.{IsPartitioned, get-Gets}
use apm_aggregation.Converter.Builders.{
  BuilderMetrics, Builders, get_event_metrics_builder, update, with_dropped, max_spans,
}

-- A number if there is a value.
abbrev pub present {ℓ} : {A : Type ℓ} → Option A → ℕ → ℕ
present none n = 0
present (some a) n = n

module _ {F : Type 0} where
  -- The histogram `h` stands behind the metrics that are there, and the spans fit into their array.
  pub record IsBuilt (h : HdrHistogram) (m : BuilderMetrics F) : Type 0 where
    pub used : ((m.transaction ≡ none) × (m.service_transaction ≡ none)) ⊎ (m.histogram ≡ h)
    pub room : length m.spans ≤ max_spans

  -- What a builder counts at index `q`.
  abbrev pub counted : Kind → ℕ → BuilderMetrics F → ℕ
  counted transactions q m = present m.transaction (count_at q (bars_of m.histogram))
  counted services q m = present m.service_transaction (count_at q (bars_of m.histogram))
  counted spans q m = 0

  unfoldable pub builders_count : Kind → ℕ → Builders F → ℕ
  builders_count k q [] = 0
  builders_count k q (b ∷ bs) = add64 (counted k q b.metrics) (builders_count k q bs)

  -- One builder for a partition, each as above, and together they count `x`.
  pub record Built (n : ℕ) (h : HdrHistogram) (x : Kind → ℕ → ℕ) (bs : Builders F) : Type 0 where
    pub partitioned : IsPartitioned n bs
    pub built : All (λ (b : EventMetricsBuilder (BuilderMetrics F)). IsBuilt h b.metrics) bs
    pub counts : (k : Kind) (q : ℕ) → builders_count k q bs ≡ x k q

  builders_count-lt : (k : Kind) (q : ℕ) (bs : Builders F) → builders_count k q bs < 2 ^ 64
  unfolding builders_count
  builders_count-lt k q [] = omega arith
  builders_count-lt k q (b ∷ bs) = add64-lt _ _

  builders_count-snoc :
      (k : Kind) (q : ℕ) (bs : Builders F) (b : EventMetricsBuilder (BuilderMetrics F))
      → counted k q b.metrics ≡ 0
      → builders_count k q (bs ++ b ∷ []) ≡ builders_count k q bs
  unfolding builders_count add64
  builders_count-snoc k q [] b e = rw e refl
  builders_count-snoc k q (c ∷ bs) b e =
      ap (add64 (counted k q c.metrics)) (builders_count-snoc k q bs b e)

  apart-update :
      (f : BuilderMetrics F → BuilderMetrics F) (p i : ℕ) (bs : Builders F)
      → All (λ (c : EventMetricsBuilder (BuilderMetrics F)). p ≢ c.partition) bs
      → All (λ (c : EventMetricsBuilder (BuilderMetrics F)). p ≢ c.partition) (update f i bs)
  unfolding update
  apart-update f p i [] a = tt
  apart-update f p zero (b ∷ bs) a = a
  apart-update f p (suc i) (b ∷ bs) a = (a.0, apart-update f p i bs a.1)

  update-IsPartitioned :
      (f : BuilderMetrics F → BuilderMetrics F) (n i : ℕ) (bs : Builders F)
      → IsPartitioned n bs
      → IsPartitioned n (update f i bs)
  unfolding update
  update-IsPartitioned f n i [] a = tt
  update-IsPartitioned f n zero (b ∷ bs) a = a
  update-IsPartitioned f n (suc i) (b ∷ bs) (l, d, r) =
      (l, apart-update f b.partition i bs d, update-IsPartitioned f n i bs r)

  update-IsBuilt :
      (f : BuilderMetrics F → BuilderMetrics F) (h : HdrHistogram) (i : ℕ) (bs : Builders F)
      → ((m : BuilderMetrics F) → IsBuilt h m → IsBuilt h (f m))
      → All (λ (b : EventMetricsBuilder (BuilderMetrics F)). IsBuilt h b.metrics) bs
      → All (λ (b : EventMetricsBuilder (BuilderMetrics F)). IsBuilt h b.metrics) (update f i bs)
  unfolding update
  update-IsBuilt f h i [] g a = tt
  update-IsBuilt f h zero (b ∷ bs) g a = (g b.metrics a.0, a.1)
  update-IsBuilt f h (suc i) (b ∷ bs) g a = (a.0, update-IsBuilt f h i bs g a.1)

  update-builders_count :
      (f : BuilderMetrics F → BuilderMetrics F) (k : Kind) (q i : ℕ) (bs : Builders F)
      → ((m : BuilderMetrics F) → counted k q (f m) ≡ counted k q m)
      → builders_count k q (update f i bs) ≡ builders_count k q bs
  unfolding update builders_count
  update-builders_count f k q i [] g = refl
  update-builders_count f k q zero (b ∷ bs) g = rw (g b.metrics) refl
  update-builders_count f k q (suc i) (b ∷ bs) g =
      ap (add64 (counted k q b.metrics)) (update-builders_count f k q i bs g)

  empty_counts :
      (m : BuilderMetrics F) (k : Kind) (q : ℕ)
      → m.transaction ≡ none
      → m.service_transaction ≡ none
      → counted k q m ≡ 0
  empty_counts m transactions q e f = rw e refl
  empty_counts m services q e f = rw f refl
  empty_counts m spans q e f = refl

  -- `get` keeps what the builders hold.
  pub get-Built :
      (n h : ℕ) (old hist : HdrHistogram) (x : Kind → ℕ → ℕ) (bs : Builders F)
      → 0 < n
      → n < 2 ^ 16
      → Built n hist x bs
      → (i : ℕ) × (bs' : Builders F) × (get (get_event_metrics_builder old) n h bs ≡ some (i, bs'))
        × Built n hist x bs'
  get-Built n h old hist x bs z l t =
      let (i, (bs', run, g)) = get-Gets (get_event_metrics_builder old) n h bs z l t.partitioned in
      let new : EventMetricsBuilder (BuilderMetrics F) = record {
        partition = h % n;
        metrics = get_event_metrics_builder old;
      } in
      let fresh : IsBuilt hist (get_event_metrics_builder old) = record {
        used = inl (refl, refl);
        room = omega arith;
      } in
      (
        i,
        bs',
        run,
        elim g.kept [
          | inl same ↦ subst (Built n hist x) (sym same) t
          | inr more_ ↦ record {
            partitioned = g.partitioned;
            built =
                subst (All (λ (b : EventMetricsBuilder (BuilderMetrics F)). IsBuilt hist b.metrics))
                  (sym more_) (All-append _ bs (new ∷ []) t.built (fresh, tt));
            counts = λ k q.
                ap (builders_count k q) more_
                ∙ builders_count-snoc k q bs new
                    (empty_counts (get_event_metrics_builder old) k q refl refl)
                ∙ t.counts k q;
          }
        ],
      )

  -- A change of the spans alone.
  pub update-Built :
      (f : BuilderMetrics F → BuilderMetrics F) (n i : ℕ) (h : HdrHistogram) (x : Kind → ℕ → ℕ)
      (bs : Builders F)
      → ((m : BuilderMetrics F) → IsBuilt h m → IsBuilt h (f m))
      → ((k : Kind) (q : ℕ) (m : BuilderMetrics F) → counted k q (f m) ≡ counted k q m)
      → Built n h x bs
      → Built n h x (update f i bs)
  update-Built f n i h x bs g e t = record {
    partitioned = update-IsPartitioned f n i bs t.partitioned;
    built = update-IsBuilt f h i bs g t.built;
    counts = λ k q. update-builders_count f k q i bs (e k q) ∙ t.counts k q;
  }

  pub spans_counts :
      (ss : List (SpanAggregationKey × SpanMetrics F)) (k : Kind) (q : ℕ) (m : BuilderMetrics F)
      → counted k q (record m { spans = ss }) ≡ counted k q m
  spans_counts ss transactions q m = refl
  spans_counts ss services q m = refl
  spans_counts ss spans q m = refl

  pub with_dropped-IsBuilt :
      (s : SpanAggregationKey × SpanMetrics F) (h : HdrHistogram) (m : BuilderMetrics F)
      → IsBuilt h m
      → IsBuilt h (with_dropped s m)
  with_dropped-IsBuilt s h m t = elim (Bool-cases (length m.spans == max_spans)) [
    | inl full ↦ rw full t
    | inr free ↦
        let more_ = length-append m.spans (s ∷ []) in
        let room : length (m.spans ++ s ∷ []) ≤ max_spans = ground (arith, free, t.room, more_) in
        let used = t.used in rw free (record { used = used; room = room })
  ]

  pub with_dropped_counts :
      (s : SpanAggregationKey × SpanMetrics F) (k : Kind) (q : ℕ) (m : BuilderMetrics F)
      → counted k q (with_dropped s m) ≡ counted k q m
  with_dropped_counts s k q m = elim (Bool-cases (length m.spans == max_spans)) [
    | inl full ↦ rw full refl
    | inr free ↦ rw free (spans_counts (m.spans ++ s ∷ []) k q m)
  ]
