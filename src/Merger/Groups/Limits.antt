-- ===== src/Merger/Groups/Limits.antt =====
-- The two constraints over a merge of groups, aggregators/merger.go.
use apm_aggregation.Base.{
  ◌+◌, ◌≤◌, ◌<◌, ◌≡◌, ◌⊎◌, inl, inr, ◌||◌, refl, subst, Option, none, some, List, [], ◌∷◌, max,
  arith,
}
use apm_aggregation.Base.Tests.{Option-cases, Bool-cases}
use apm_aggregation.Base.Lists.{length}
use apm_aggregation.Base.Panic.{>>=-eq-some, some_eq}
use apm_aggregation.Base.Assoc.{lookup, insert, length-insert_new, length-insert_old}
use apm_aggregation.Constraint.{maxed, add}
use apm_aggregation.Pb.{KeyedSpanMetrics}
use apm_aggregation.Models.Env.{Env}
use apm_aggregation.Models.Keys.{SpanAggregationKey-discrete}
use apm_aggregation.Merger.Metrics.{merge_keyed_span_metrics}
use apm_aggregation.Merger.Groups.{
  Groups, add_group, merge_group, merge_at, merge_one, merge_groups, SpanGroups, drop_span_name,
  span_key, span_overflow, merge_span_again, merge_span_at, merge_span, merge_span_groups,
}

-- How a merge went from `st` to `st'`: the constraint of the service counts the groups, the global
-- one went up by as many as are new, and neither the map nor the global count passed a limit that it
-- had not passed before.
pub record Charged {K V O : Type 0} (st st' : Groups K V O) : Type 0 where
  pub counted : st'.per_svc.counter ≡ length st'.to
  pub per_svc_limit : st'.per_svc.limit ≡ st.per_svc.limit
  pub global_limit : st'.global.limit ≡ st.global.limit
  pub grows : length st.to ≤ length st'.to
  pub charged : st'.global.counter + length st.to ≡ st.global.counter + length st'.to
  pub per_svc_bound : length st'.to ≤ max (length st.to) st.per_svc.limit
  pub global_bound : st'.global.counter ≤ max st.global.counter st.global.limit

pub Charged-trans :
    {K V O : Type 0} {a b c : Groups K V O} → Charged a b → Charged b c → Charged a c
Charged-trans p q = record {
  counted = q.counted;
  per_svc_limit = omega (arith, p.per_svc_limit, q.per_svc_limit);
  global_limit = omega (arith, p.global_limit, q.global_limit);
  grows = omega (arith, p.grows, q.grows);
  charged = omega (arith, p.charged, q.charged);
  per_svc_bound = omega (arith, p.per_svc_bound, q.per_svc_bound, p.per_svc_limit);
  global_bound = omega (arith, p.global_bound, q.global_bound, p.global_limit);
}

pub Charged-same :
    {K V O : Type 0} (st : Groups K V O) (o : O)
    → st.per_svc.counter ≡ length st.to
    → Charged st (record st { overflow = o })
Charged-same st o h = record {
  counted = h;
  per_svc_limit = refl;
  global_limit = refl;
  grows = omega arith;
  charged = refl;
  per_svc_bound = omega arith;
  global_bound = omega arith;
}

module _ {K V O : Type 0} (eq : Discrete K) where
  -- The group that is added.
  abbrev added : Groups K V O → K → V → Groups K V O
  added st k v = record st {
    to = insert eq k v st.to;
    per_svc = add st.per_svc 1;
    global = add st.global 1;
  }

  -- The two ends of `add_group`: an overflow, or a new group below both limits.
  pub data Adds (overflow : O → V → Option O) (st : Groups K V O) (k : K) (v : V)
      (st' : Groups K V O) : Type 0 where
    overflows :
        (o : O)
        → (st.per_svc.limit ≤ st.per_svc.counter) ⊎ (st.global.limit ≤ st.global.counter)
        → overflow st.overflow v ≡ some o
        → record st { overflow = o } ≡ st'
        → Adds overflow st k v st'
    fits :
        st.per_svc.counter < st.per_svc.limit
        → st.global.counter < st.global.limit
        → added st k v ≡ st'
        → Adds overflow st k v st'

  pub add_group-Adds :
      (overflow : O → V → Option O) (st st' : Groups K V O) (k : K) (v : V)
      → add_group eq overflow st k v ≡ some st'
      → Adds overflow st k v st'
  unfolding add_group
  add_group-Adds overflow st st' k v e = elim (Bool-cases (maxed st.per_svc || maxed st.global)) [
    | inl full ↦
        let (o, run, last) = >>=-eq-some _ _ (rw full at e) in
        overflows o (ground arith) run (ground arith)
    | inr free ↦ fits (ground arith) (ground arith) (ground (arith, rw free at e))
  ]

  added-Charged :
      (st : Groups K V O) (k : K) (v : V)
      → lookup eq k st.to ≡ none
      → st.per_svc.counter ≡ length st.to
      → st.per_svc.counter < st.per_svc.limit
      → st.global.counter < st.global.limit
      → Charged st (added st k v)
  unfolding add
  added-Charged st k v miss h a b =
      let n = length-insert_new eq k v st.to miss in
      record {
        counted = omega arith;
        per_svc_limit = refl;
        global_limit = refl;
        grows = omega arith;
        charged = omega arith;
        per_svc_bound = omega arith;
        global_bound = omega arith;
      }

  pub add_group-Charged :
      (overflow : O → V → Option O) (st st' : Groups K V O) (k : K) (v : V)
      → lookup eq k st.to ≡ none
      → st.per_svc.counter ≡ length st.to
      → Adds overflow st k v st'
      → Charged st st'
  add_group-Charged overflow st st' k v miss h (overflows o _ _ e) =
      subst (Charged st) e (Charged-same st o h)
  add_group-Charged overflow st st' k v miss h (fits a b e) =
      subst (Charged st) e (added-Charged st k v miss h a b)

  pub merge_group-Charged :
      (merge_keyed : V → V → Option V) (st st' : Groups K V O) (k : K) (to from : V)
      → lookup eq k st.to ≡ some to
      → st.per_svc.counter ≡ length st.to
      → merge_group eq merge_keyed st k to from ≡ some st'
      → Charged st st'
  unfolding merge_group
  merge_group-Charged merge_keyed st st' k to from hit h e =
      let (v, _, last) = >>=-eq-some (merge_keyed to from) _ e in
      let n = length-insert_old eq k v to st.to hit in ground (arith, n, last)

  module _ (key : V → K) (merge_keyed : V → V → Option V) (overflow : O → V → Option O) where
    pub merge_one-Charged :
        (st st' : Groups K V O) (from : V)
        → st.per_svc.counter ≡ length st.to
        → merge_one eq key merge_keyed overflow st from ≡ some st'
        → Charged st st'
    unfolding merge_one
    merge_one-Charged st st' from h e = elim (Option-cases (lookup eq (key from) st.to)) [
      | inl miss ↦
          add_group-Charged overflow st st' (key from) from miss h
            (add_group-Adds overflow st st' (key from) from (rw (miss, merge_at) at e))
      | inr (to, hit) ↦
          merge_group-Charged merge_keyed st st' (key from) to from hit h (rw (hit, merge_at) at e)
    ]

    -- A merge of any groups keeps to the limits.
    pub merge_groups-Charged :
        (st st' : Groups K V O) (from : List V)
        → st.per_svc.counter ≡ length st.to
        → merge_groups eq key merge_keyed overflow st from ≡ some st'
        → Charged st st'
    unfolding merge_groups
    merge_groups-Charged st st' [] h e =
        subst (Charged st) (some_eq e) (Charged-same st st.overflow h)
    merge_groups-Charged st st' (from ∷ rest) h e =
        let (mid, one, more) = >>=-eq-some (merge_one eq key merge_keyed overflow st from) _ e in
        let p = merge_one-Charged st mid from h one in
        Charged-trans p (merge_groups-Charged mid st' rest p.counted more)

module _ {F S D : Type 0} (env : Env F S D) (hash : D) where
  merge_span_again-Charged :
      (st st' : SpanGroups env hash) (from : KeyedSpanMetrics F)
      → st.per_svc.counter ≡ length st.to
      → merge_span_again env hash
          (lookup SpanAggregationKey-discrete (span_key env hash from) st.to)
          st
          from
        ≡ some st'
      → Charged st st'
  unfolding merge_span_again
  merge_span_again-Charged st st' from h e =
      elim (Option-cases (lookup SpanAggregationKey-discrete (span_key env hash from) st.to)) [
        | inl miss ↦
            add_group-Charged SpanAggregationKey-discrete (span_overflow env hash) st st'
              (span_key env hash from) from miss h
              (add_group-Adds SpanAggregationKey-discrete (span_overflow env hash) st st'
                (span_key env hash from) from (rw (miss, merge_span_again) at e))
        | inr (to, hit) ↦
            merge_group-Charged SpanAggregationKey-discrete (merge_keyed_span_metrics env) st st'
              (span_key env hash from) to from hit h (rw (hit, merge_span_again) at e)
      ]

  merge_span-Charged :
      (st st' : SpanGroups env hash) (from : KeyedSpanMetrics F)
      → st.per_svc.counter ≡ length st.to
      → merge_span env hash st from ≡ some st'
      → Charged st st'
  unfolding merge_span
  merge_span-Charged st st' from h e =
      elim (Option-cases (lookup SpanAggregationKey-discrete (span_key env hash from) st.to)) [
        | inl miss ↦
            merge_span_again-Charged st st' (drop_span_name env hash st.per_svc from) h
              (rw (miss, merge_span_at) at e)
        | inr (to, hit) ↦
            merge_group-Charged SpanAggregationKey-discrete (merge_keyed_span_metrics env) st st'
              (span_key env hash from) to from hit h (rw (hit, merge_span_at) at e)
      ]

  -- Merging span groups keeps to the limits, with span names dropped or not.
  pub merge_span_groups-Charged :
      (st st' : SpanGroups env hash) (from : List (KeyedSpanMetrics F))
      → st.per_svc.counter ≡ length st.to
      → merge_span_groups env hash st from ≡ some st'
      → Charged st st'
  unfolding merge_span_groups
  merge_span_groups-Charged st st' [] h e =
      subst (Charged st) (some_eq e) (Charged-same st st.overflow h)
  merge_span_groups-Charged st st' (from ∷ rest) h e =
      let (mid, one, more) = >>=-eq-some (merge_span env hash st from) _ e in
      let p = merge_span-Charged st mid from h one in
      Charged-trans p (merge_span_groups-Charged mid st' rest p.counted more)
