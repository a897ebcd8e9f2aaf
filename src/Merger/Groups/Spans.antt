-- ===== src/Merger/Groups/Spans.antt =====
-- The span groups that have a name, in `mergeSpanGroups` of aggregators/merger.go.
use apm_aggregation.Base.{
  ℕ, ◌+◌, ◌/◌, ◌≤◌, ◌<◌, ◌≡◌, ◌⊎◌, inl, inr, refl, subst, none, some, List, [], ◌∷◌, max, arith,
}
use apm_aggregation.Base.Tests.{Option-cases, Bool-cases, leb}
use apm_aggregation.Base.Lists.{length}
use apm_aggregation.Base.Panic.{>>=-eq-some, some_eq}
use apm_aggregation.Base.Assoc.{lookup, insert, length-insert_new, length-insert_old}
use apm_aggregation.Constraint.{Constraint, add}
use apm_aggregation.Pb.{Text, KeyedSpanMetrics}
use apm_aggregation.Models.Env.{Env}
use apm_aggregation.Models.Keys.{SpanAggregationKey, SpanAggregationKey-discrete}
use apm_aggregation.Codec.Keys.{span_key_from_proto}
use apm_aggregation.Merger.Metrics.{merge_keyed_span_metrics}
use apm_aggregation.Merger.Groups.{
  Groups, merge_group, SpanGroups, drop_span_name, span_key, span_overflow, merge_span_again,
  merge_span_at, merge_span, merge_span_groups,
}
use apm_aggregation.Merger.Groups.Limits.{Adds, overflows, fits, add_group-Adds}

-- 1 for a name that is not empty.
abbrev pub has_name : Text → ℕ
has_name [] = 0
has_name (b ∷ bs) = 1

has_name-le : (t : Text) → has_name t ≤ 1
has_name-le [] = omega arith
has_name-le (b ∷ bs) = omega arith

module _ {V : Type 0} where
  -- How many groups have a name.
  unfoldable pub named : List (SpanAggregationKey × V) → ℕ
  named [] = 0
  named ((k, v) ∷ m) = has_name k.span_name + named m

  named-le-length : (m : List (SpanAggregationKey × V)) → named m ≤ length m
  unfolding named
  named-le-length [] = omega arith
  named-le-length ((k, v) ∷ m) = omega (arith, has_name-le k.span_name, named-le-length m)

  named-insert_new :
      (k : SpanAggregationKey) (v : V) (m : List (SpanAggregationKey × V))
      → lookup SpanAggregationKey-discrete k m ≡ none
      → named (insert SpanAggregationKey-discrete k v m) ≡ has_name k.span_name + named m
  unfolding named lookup insert
  named-insert_new k v [] h = omega arith
  named-insert_new k v ((j, w) ∷ m) h = ground (arith, named-insert_new k v m)

  named-insert_old :
      (k : SpanAggregationKey) (v w : V) (m : List (SpanAggregationKey × V))
      → lookup SpanAggregationKey-discrete k m ≡ some w
      → named (insert SpanAggregationKey-discrete k v m) ≡ named m
  unfolding named lookup insert
  named-insert_old k v w [] h = ground arith
  named-insert_old k v w ((j, u) ∷ m) h = ground (arith, named-insert_old k v w m)

-- A step that does not push the named groups over half of the limit.
pub record Shares {V O : Type 0} (st st' : Groups SpanAggregationKey V O) : Type 0 where
  pub limit : st'.per_svc.limit ≡ st.per_svc.limit
  pub counted : st'.per_svc.counter ≡ length st'.to
  pub names : named st'.to ≤ max (named st.to) (st.per_svc.limit / 2)

Shares-trans :
    {V O : Type 0} {a b c : Groups SpanAggregationKey V O} → Shares a b → Shares b c → Shares a c
Shares-trans p q = record {
  limit = omega (arith, p.limit, q.limit);
  counted = q.counted;
  names = omega (arith, p.limit, p.names, q.names);
}

module _ {F S D : Type 0} (env : Env F S D) (hash : D) where
  drop_span_name_cases :
      (c : Constraint) (from : KeyedSpanMetrics F)
      → (has_name (span_key env hash (drop_span_name env hash c from)).span_name ≡ 0)
        ⊎ (c.counter < c.limit / 2)
  unfolding drop_span_name span_key_from_proto
  drop_span_name_cases c from = elim (Bool-cases (leb (c.limit / 2) c.counter)) [
    | inl half ↦ inl (rw half refl)
    | inr free ↦ inr (ground arith)
  ]

  add_group-Shares :
      (st st' : SpanGroups env hash) (from : KeyedSpanMetrics F)
      → lookup SpanAggregationKey-discrete (span_key env hash from) st.to ≡ none
      → st.per_svc.counter ≡ length st.to
      → (has_name (span_key env hash from).span_name ≡ 0)
        ⊎ (st.per_svc.counter < st.per_svc.limit / 2)
      → Adds SpanAggregationKey-discrete
          (span_overflow env hash)
          st
          (span_key env hash from)
          from
          st'
      → Shares st st'
  unfolding add
  add_group-Shares st st' from miss h room (overflows o _ _ e) =
      subst (Shares st) e (record { limit = refl; counted = h; names = omega arith })
  add_group-Shares st st' from miss h room (fits a b e) =
      let k = span_key env hash from in
      let n = length-insert_new SpanAggregationKey-discrete k from st.to miss in
      let m = named-insert_new k from st.to miss in
      let few = named-le-length st.to in
      let one = has_name-le k.span_name in
      subst (Shares st) e (record {
        limit = refl;
        counted = omega (arith, n, h);
        names = omega (arith, m, few, one, room, h);
      })

  merge_group-Shares :
      (st st' : SpanGroups env hash) (from to : KeyedSpanMetrics F)
      → lookup SpanAggregationKey-discrete (span_key env hash from) st.to ≡ some to
      → st.per_svc.counter ≡ length st.to
      → merge_group SpanAggregationKey-discrete
          (merge_keyed_span_metrics env)
          st
          (span_key env hash from)
          to
          from
        ≡ some st'
      → Shares st st'
  unfolding merge_group
  merge_group-Shares st st' from to hit h e =
      let (v, _, last) = >>=-eq-some (merge_keyed_span_metrics env to from) _ e in
      ground (
        arith,
        last,
        named-insert_old (span_key env hash from) v to st.to hit,
        length-insert_old SpanAggregationKey-discrete (span_key env hash from) v to st.to hit,
      )

  merge_span-Shares :
      (st st' : SpanGroups env hash) (from : KeyedSpanMetrics F)
      → st.per_svc.counter ≡ length st.to
      → merge_span env hash st from ≡ some st'
      → Shares st st'
  unfolding merge_span
  merge_span-Shares st st' from h e =
      let from' = drop_span_name env hash st.per_svc from in
      elim (Option-cases (lookup SpanAggregationKey-discrete (span_key env hash from) st.to)) [
        | inr (to, hit) ↦ merge_group-Shares st st' from to hit h (rw (hit, merge_span_at) at e)
        | inl miss ↦
            elim (Option-cases
              (lookup SpanAggregationKey-discrete (span_key env hash from') st.to)) [
                | inr (to, hit) ↦
                    merge_group-Shares st st' from' to hit h
                      (rw (miss, merge_span_at, hit, merge_span_again) at e)
                | inl again ↦
                    add_group-Shares st st' from' again h (drop_span_name_cases st.per_svc from) (
                      add_group-Adds SpanAggregationKey-discrete (span_overflow env hash) st st'
                        (span_key env hash from') from'
                        (rw (miss, merge_span_at, again, merge_span_again) at e))
              ]
      ]

  pub merge_span_groups-Shares :
      (st st' : SpanGroups env hash) (from : List (KeyedSpanMetrics F))
      → st.per_svc.counter ≡ length st.to
      → merge_span_groups env hash st from ≡ some st'
      → Shares st st'
  unfolding merge_span_groups
  merge_span_groups-Shares st st' [] h e =
      subst (Shares st) (some_eq e) (record { limit = refl; counted = h; names = omega arith })
  merge_span_groups-Shares st st' (from ∷ rest) h e =
      let (mid, one, more) = >>=-eq-some (merge_span env hash st from) _ e in
      let p = merge_span-Shares st mid from h one in
      Shares-trans p (merge_span_groups-Shares mid st' rest p.counted more)
