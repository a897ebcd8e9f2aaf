-- ===== src/Merger/Groups/SpanTotal.antt =====
-- `mergeSpanGroups` of aggregators/merger.go on groups that carry metrics.
use apm_aggregation.Base.{◌≡◌, inl, inr, refl, ◌/◌, Option, none, some, List, [], ◌∷◌}
use apm_aggregation.Base.Tests.{Option-cases, Bool-cases, leb}
use apm_aggregation.Base.Lists.{All, length}
use apm_aggregation.Base.Words.{add64}
use apm_aggregation.Base.Assoc.{lookup}
use apm_aggregation.Constraint.{Constraint}
use apm_aggregation.Pb.{SpanMetrics, KeyedSpanMetrics}
use apm_aggregation.Models.{OverflowSpan}
use apm_aggregation.Models.Env.{Env}
use apm_aggregation.Models.Keys.{SpanAggregationKey-discrete}
use apm_aggregation.Merger.Metrics.{merge_keyed_span_metrics, merge_span_metrics, or_new_span}
use apm_aggregation.Merger.Overflow.{overflow_span_merge, insert_hash}
use apm_aggregation.Hash.{hash_span_key}
use apm_aggregation.Merger.Groups.{
  SpanGroups, add_group, merge_group, drop_span_name, span_key, span_overflow, merge_span_again,
  merge_span_at, merge_span, merge_span_groups,
}
use apm_aggregation.Merger.Groups.Limits.{Charged, merge_span_groups-Charged}
use apm_aggregation.Merger.Groups.Spans.{Shares, merge_span_groups-Shares}
use apm_aggregation.Merger.Groups.Counts.{
  AllGroups, Accounts, add_group-Accounts, merge_group-Accounts,
}

module _ {F : Type 0} where
  abbrev pub HasSpan : Option (SpanMetrics F) → Type 0
  HasSpan none = ⊥
  HasSpan (some m) = Unit {0}

  -- A span group as combined metrics carry it: its metrics are set.
  abbrev pub IsSpanGroup : KeyedSpanMetrics F → Type 0
  IsSpanGroup v = HasSpan v.metrics

module _ {F S D : Type 0} (env : Env F S D) where
  abbrev pub sums : Option (SpanMetrics F) → SpanMetrics F → SpanMetrics F
  sums to from =
      let old = or_new_span env to in
      record { count = env.add old.count from.count; sum = env.add old.sum from.sum }

module _ {F S D : Type 0} (env : Env F S D) (hash : D) where
  span_merges :
      (from : Option (SpanMetrics F)) (v w : KeyedSpanMetrics F)
      → w.metrics ≡ from
      → IsSpanGroup v
      → IsSpanGroup w
      → (c : KeyedSpanMetrics F) × (merge_keyed_span_metrics env v w ≡ some c)
        × IsSpanGroup c
        × (0 ≡ add64 0 0)
  unfolding merge_keyed_span_metrics merge_span_metrics add64
  span_merges none v w ew a b = absurd (rw ew at b)
  span_merges (some n) v w ew a b =
      (record v { metrics = some (sums env v.metrics n) }, simp ew, tt, refl)

  pub span_overflows :
      (from : Option (SpanMetrics F)) (o : OverflowSpan F S) (v : KeyedSpanMetrics F)
      → v.metrics ≡ from
      → Unit {0}
      → IsSpanGroup v
      → (c : OverflowSpan F S) × (span_overflow env hash o v ≡ some c) × Unit {0} × (0 ≡ add64 0 0)
  unfolding overflow_span_merge merge_span_metrics add64
  span_overflows none o v ev a b = absurd (rw ev at b)
  span_overflows (some n) o v ev a b = (
    record {
      metrics = some (sums env o.metrics n);
      estimator = insert_hash env o.estimator (env.sum64 (hash_span_key env hash v.key));
    },
    simp ev,
    tt,
    refl,
  )

  abbrev Goes : SpanGroups env hash → Option (SpanGroups env hash) → Type 0
  Goes st run =
      (st' : SpanGroups env hash) × (run ≡ some st')
      × Accounts IsSpanGroup (λ _. Unit {0}) (λ _. 0) (λ _. 0) st 0 st'

  merge_old :
      (st : SpanGroups env hash) (v to : KeyedSpanMetrics F)
      → lookup SpanAggregationKey-discrete (span_key env hash v) st.to ≡ some to
      → AllGroups IsSpanGroup st.to
      → IsSpanGroup v
      → Goes st (
          merge_group SpanAggregationKey-discrete
            (merge_keyed_span_metrics env)
            st
            (span_key env hash v)
            to
            v)
  merge_old st v to hit a p =
      merge_group-Accounts SpanAggregationKey-discrete (span_key env hash)
        (merge_keyed_span_metrics env) (span_overflow env hash) IsSpanGroup (λ _. Unit {0}) (λ _. 0)
        (λ _. 0) (λ x y. span_merges y.metrics x y refl) (λ o x. span_overflows x.metrics o x refl)
        st (span_key env hash v) to v hit a tt p

  merge_span_again-Goes :
      (st : SpanGroups env hash) (v : KeyedSpanMetrics F)
      → AllGroups IsSpanGroup st.to
      → IsSpanGroup v
      → Goes st (
          merge_span_again env hash
            (lookup SpanAggregationKey-discrete (span_key env hash v) st.to)
            st
            v)
  unfolding merge_span_again add_group
  merge_span_again-Goes st v a p =
      elim (Option-cases (lookup SpanAggregationKey-discrete (span_key env hash v) st.to)) [
        | inl miss ↦
            rw (miss, merge_span_again)
              (add_group-Accounts SpanAggregationKey-discrete (span_key env hash)
                (merge_keyed_span_metrics env) (span_overflow env hash) IsSpanGroup (λ _. Unit {0})
                (λ _. 0) (λ _. 0) (λ x y. span_merges y.metrics x y refl)
                (λ o x. span_overflows x.metrics o x refl) st (span_key env hash v) v miss a tt p)
        | inr (to, hit) ↦ rw (hit, merge_span_again) (merge_old st v to hit a p)
      ]

  drop_span_name-IsSpanGroup :
      (c : Constraint) (v : KeyedSpanMetrics F)
      → IsSpanGroup v
      → IsSpanGroup (drop_span_name env hash c v)
  unfolding drop_span_name
  drop_span_name-IsSpanGroup c v p = elim (Bool-cases (leb (c.limit / 2) c.counter)) [
    | inl half ↦ rw half p
    | inr free ↦ rw free p
  ]

  merge_span-Goes :
      (st : SpanGroups env hash) (v : KeyedSpanMetrics F)
      → AllGroups IsSpanGroup st.to
      → IsSpanGroup v
      → Goes st (merge_span env hash st v)
  unfolding merge_span
  merge_span-Goes st v a p =
      elim (Option-cases (lookup SpanAggregationKey-discrete (span_key env hash v) st.to)) [
        | inl miss ↦
            rw (miss, merge_span_at)
              (merge_span_again-Goes st (drop_span_name env hash st.per_svc v) a
                (drop_span_name-IsSpanGroup st.per_svc v p))
        | inr (to, hit) ↦ rw (hit, merge_span_at) (merge_old st v to hit a p)
      ]

  merge_span_groups-Goes :
      (st : SpanGroups env hash) (from : List (KeyedSpanMetrics F))
      → AllGroups IsSpanGroup st.to
      → All IsSpanGroup from
      → (st' : SpanGroups env hash) × (merge_span_groups env hash st from ≡ some st')
        × AllGroups IsSpanGroup st'.to
  unfolding merge_span_groups
  merge_span_groups-Goes st [] a p = (st, refl, a)
  merge_span_groups-Goes st (v ∷ vs) a p =
      let (mid, one, r) = merge_span-Goes st v a p.0 in
      let (end, run, s) = merge_span_groups-Goes mid vs r.groups p.1 in (end, rw one run, s)

  -- When the service constraint counts the span groups and every group carries metrics, a merge of
  -- span groups that carry metrics does not panic, adds no group beyond either limit,
  -- leaves groups that carry metrics, and does not let the groups with a span name grow past half of
  -- the service's limit.
  pub merge_span_groups-Keeps :
      (st : SpanGroups env hash) (from : List (KeyedSpanMetrics F))
      → st.per_svc.counter ≡ length st.to
      → AllGroups IsSpanGroup st.to
      → All IsSpanGroup from
      → (st' : SpanGroups env hash) × (merge_span_groups env hash st from ≡ some st')
        × Charged st st'
        × AllGroups IsSpanGroup st'.to
        × Shares st st'
  merge_span_groups-Keeps st from h a p =
      let (st', run, ok) = merge_span_groups-Goes st from a p in
      (
        st',
        run,
        merge_span_groups-Charged env hash st st' from h run,
        ok,
        merge_span_groups-Shares env hash st st' from h run,
      )
