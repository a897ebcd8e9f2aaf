-- ===== src/Aggregator/Kept.antt =====
-- Aggregation of aggregators/aggregator.go keeps a property that all keys of the batch have, when the
-- keys that it writes have it, and a weaker one that all keys of the database have.
use apm_aggregation.Base.{
  ℕ, ◌^◌, ◌<◌, ◌≡◌, refl, sym, subst, Bool, some, List, [], ◌∷◌, ◌++◌, inl, inr,
}
use apm_aggregation.Base.Tests.{Bool-cases, Option-cases, ltb, ◌==◌}
use apm_aggregation.Base.Lists.{All, All-append, length, replicate}
use apm_aggregation.Codec.Key.{CombinedMetricsKey}
use apm_aggregation.Codec.Key.RoundTrip.{encoding, marshal_lem}
use apm_aggregation.Aggregator.Bounds.{key_at}
use apm_aggregation.Aggregator.Pebble.{Entries, Pebble, IsPebble, OfKey}
use apm_aggregation.Aggregator.State.{
  Aggregator, Calls, Result, operations, truncate, db_commit_threshold_bytes, commit_at_threshold,
  finished, merged, aggregate, aggregate_each, returned, aggregate_apm_event, aggregate_events,
  aggregate_interval, aggregate_intervals, refused, aggregate_batch,
}

-- The conversion of an event gives each of its metrics the key that it gets, but for the partition.
pub record Converts {E M V F : Type 0} (x : Calls E M V F) : Type 0 where
  pub partitioned :
      (e : E) (k : CombinedMetricsKey) (cms : List (CombinedMetricsKey × M))
      → x.event_to_combined_metrics e k ≡ some cms
      → All
          (λ (km : CombinedMetricsKey × M).
            (q : ℕ) × (q < 2 ^ 16) × (km.0 ≡ record k { partition_id = q }))
          cms

module _ {Db E M V F : Type 0} (p : Pebble Db V) (x : Calls E M V F) (contents : Db → Entries V)
    (law : IsPebble p contents) (P Q : List ℕ → Type 0) (weaker : (kb : List ℕ) → Q kb → P kb) where
  -- All keys have their property, and the processing time is this.
  pub record Has (time : ℕ) (a : Aggregator Db V) : Type 0 where
    pub stored : All (OfKey P) (contents a.db)
    pub batched : All (OfKey Q) (operations a.batch)
    pub at_time : a.processing_time ≡ time

  -- A key that is written to a buffer and has the property then.
  abbrev pub Fits : CombinedMetricsKey → Type 0
  Fits k = (length k.id ≡ 16) × Q (encoding k)

  all_weaker : (es : Entries V) → All (OfKey Q) es → All (OfKey P) es
  all_weaker [] q = tt
  all_weaker ((kb, v) ∷ es) q = (weaker kb q.0, all_weaker es q.1)

  commit_at_threshold-Has :
      (ops : Entries V) (n time : ℕ) (a : Aggregator Db V)
      → All (OfKey Q) ops
      → Has time a
      → Has time (commit_at_threshold p ops n a).state
  unfolding commit_at_threshold
  commit_at_threshold-Has ops n time a o h =
      let stored = law.committed P ops a.db h.stored (all_weaker ops o) in
      elim (Bool-cases (ltb (p.len ops) db_commit_threshold_bytes)) [
        | inl below ↦ rw below (record { stored = h.stored; batched = o; at_time = h.at_time })
        | inr reached ↦ elim (Bool-cases (p.commit ops a.db).1) [
          | inl ok ↦ elim (Bool-cases (p.close_batch ops)) [
            | inl closed ↦
                rw (reached, ok, closed)
                  (record { stored = stored; batched = tt; at_time = h.at_time })
            | inr failed ↦
                rw (reached, ok, failed)
                  (record { stored = stored; batched = o; at_time = h.at_time })
          ]
          | inr failed ↦
              rw (reached, failed) (record { stored = stored; batched = o; at_time = h.at_time })
        ]
      ]

  finished-Has :
      (ops : Entries V) (n time : ℕ) (a : Aggregator Db V)
      → All (OfKey Q) ops
      → Has time a
      → Has time (finished p ops n a).state
  finished-Has ops n time a o h = elim (Bool-cases (p.finish ops)) [
    | inl ok ↦ rw ok (commit_at_threshold-Has ops n time a o h)
    | inr failed ↦ rw failed (record { stored = h.stored; batched = o; at_time = h.at_time })
  ]

  aggregate-Has :
      (k : CombinedMetricsKey) (m : M) (time : ℕ) (a : Aggregator Db V)
      → Fits k
      → Has time a
      → Has time (aggregate p x k m a).state
  unfolding aggregate
  aggregate-Has k m time a f h =
      subst (λ b. Has time (merged p x b m a).state) (sym (marshal_lem k (replicate 28 0) f.0 refl))
        (finished-Has (operations a.batch ++ (encoding k, x.marshal_vt m) ∷ []) (x.size_vt m) time a
          (All-append (OfKey Q) (operations a.batch) ((encoding k, x.marshal_vt m) ∷ []) h.batched
            (f.1, tt))
          h)

  aggregate_each-Has :
      (cms : List (CombinedMetricsKey × M)) (time : ℕ) (a : Aggregator Db V)
      → All (λ (km : CombinedMetricsKey × M). Fits km.0) cms
      → Has time a
      → Has time (aggregate_each p x cms a).state
  unfolding aggregate_each
  aggregate_each-Has [] time a f h = h
  aggregate_each-Has ((k, m) ∷ rest) time a f h =
      aggregate_each-Has rest time (aggregate p x k m a).state f.1 (aggregate-Has k m time a f.0 h)

  returned-state : (r : Result (Aggregator Db V)) → (returned r).state ≡ r.state
  returned-state r = elim (Bool-cases (length r.errors == 0)) [
    | inl e ↦ rw e refl
    | inr e ↦ rw e refl
  ]

  -- A key that fits in every partition.
  abbrev pub FitsAll : CombinedMetricsKey → Type 0
  FitsAll k = (q : ℕ) → q < 2 ^ 16 → Fits (record k { partition_id = q })

  all-Fits :
      (k : CombinedMetricsKey) (cms : List (CombinedMetricsKey × M))
      → FitsAll k
      → All
          (λ (km : CombinedMetricsKey × M).
            (q : ℕ) × (q < 2 ^ 16) × (km.0 ≡ record k { partition_id = q }))
          cms
      → All (λ (km : CombinedMetricsKey × M). Fits km.0) cms
  all-Fits k [] f c = tt
  all-Fits k (km ∷ rest) f c =
      let (q, l, e) = c.0 in (subst Fits (sym e) (f q l), all-Fits k rest f c.1)

  module _ (c : Converts x) where
    aggregate_apm_event-Has :
        (k : CombinedMetricsKey) (e : E) (time : ℕ) (a : Aggregator Db V)
        → FitsAll k
        → Has time a
        → Has time (aggregate_apm_event p x k e a).state
    unfolding aggregate_apm_event
    aggregate_apm_event-Has k e time a f h = elim (Option-cases (x.event_to_combined_metrics e k)) [
      | inl failed ↦ rw failed h
      | inr (cms, ok) ↦
          rw (ok, returned-state (aggregate_each p x cms a))
            (aggregate_each-Has cms time a (all-Fits k cms f (c.partitioned e k cms ok)) h)
    ]

    aggregate_events-Has :
        (k : CombinedMetricsKey) (es : List E) (time : ℕ) (a : Aggregator Db V)
        → FitsAll k
        → Has time a
        → Has time (aggregate_events p x k es a).state
    unfolding aggregate_events
    aggregate_events-Has k [] time a f h = h
    aggregate_events-Has k (e ∷ es) time a f h =
        aggregate_events-Has k es time (aggregate_apm_event p x k e a).state f
          (aggregate_apm_event-Has k e time a f h)

    aggregate_intervals-Has :
        (id : List ℕ) (es : List E) (ivls : List ℕ) (time : ℕ) (a : Aggregator Db V)
        → All (λ ivl. FitsAll (key_at ivl (truncate time ivl) 0 id)) ivls
        → Has time a
        → Has time (aggregate_intervals p x id es ivls a).state
    unfolding aggregate_intervals aggregate_interval
    aggregate_intervals-Has id es [] time a f h = h
    aggregate_intervals-Has id es (ivl ∷ ivls) time a f h =
        let k : CombinedMetricsKey = key_at ivl (truncate a.processing_time ivl) 0 id in
        let fits : FitsAll k =
          subst (λ t. FitsAll (key_at ivl (truncate t ivl) 0 id)) (sym h.at_time) f.0 in
        let one = aggregate_events-Has k es time a fits h in
        aggregate_intervals-Has id es ivls time (aggregate_interval p x id es ivl a).state f.1
          (record { stored = one.stored; batched = one.batched; at_time = one.at_time })

    pub aggregate_batch-Has :
        (done prefer : Bool) (ivls id : List ℕ) (es : List E) (time : ℕ) (a : Aggregator Db V)
        → All (λ ivl. FitsAll (key_at ivl (truncate time ivl) 0 id)) ivls
        → Has time a
        → Has time (aggregate_batch p x done prefer ivls id es a).state
    unfolding aggregate_batch
    aggregate_batch-Has done prefer ivls id es time a f h =
        elim (Option-cases (refused done a.closed prefer)) [
          | inl free ↦ rw free (aggregate_intervals-Has id es ivls time a f h)
          | inr (why, no_) ↦ rw no_ h
        ]
