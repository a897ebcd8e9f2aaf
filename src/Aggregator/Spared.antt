-- ===== src/Aggregator/Spared.antt =====
-- What `AggregateBatch` of aggregators/aggregator.go writes while a harvest is under way.
use apm_aggregation.Base.{
  ℕ, ◌-◌, ◌^◌, ◌<◌, ◌≡◌, sym, ap, ◌∙◌, subst, true, false, inl, inr, List, arith,
}
use apm_aggregation.Base.Tests.{Bool-cases}
use apm_aggregation.Base.Lists.{length}
use apm_aggregation.Codec.Key.{CombinedMetricsKey}
use apm_aggregation.Codec.Key.RoundTrip.{encoding}
use apm_aggregation.Cached.{ends_at}
use apm_aggregation.Aggregator.Order.{within}
use apm_aggregation.Aggregator.Bounds.{
  unix, key_at, bound, IsInterval, is_between, within-is_between, is_between_lem,
}
use apm_aggregation.Aggregator.State.{truncate}
use apm_aggregation.Aggregator.Written.{written-IsWhole}

truncate_same : (t ivl : ℕ) → ends_at t ivl ≡ true → truncate t ivl ≡ t
unfolding ends_at truncate
truncate_same t ivl h = ground (arith, h)

-- A harvest of an interval that ends at the processing time neither reads nor deletes a key that a
-- batch has at that time, of any configured interval and in any partition: batches that come in during
-- a harvest lose nothing to it.
pub key_at-within :
    (t ivl jvl q : ℕ) (id : List ℕ)
    → IsInterval ivl
    → IsInterval jvl
    → ends_at t jvl ≡ true
    → length id ≡ 16
    → q < 2 ^ 16
    → within
        (bound jvl (t - jvl))
        (bound jvl t)
        (encoding (record (key_at ivl (truncate t ivl) 0 id) { partition_id = q }))
      ≡ false
unfolding key_at
key_at-within t ivl jvl q id i j ends l r =
    let k : CombinedMetricsKey = record (key_at ivl (truncate t ivl) 0 id) { partition_id = q } in
    let same = within-is_between k jvl (t - jvl) t (written-IsWhole t ivl q id i l r) j in
    elim (Bool-cases (is_between jvl (t - jvl) t k)) [
      | inl inside ↦
          let (interval, from, before) = (is_between_lem jvl (t - jvl) t k).0 inside in
          let ends_too = subst (λ x. ends_at t x ≡ true) (sym interval) ends in
          let time = ap unix (truncate_same t ivl ends_too) in absurd (omega (arith, before, time))
      | inr outside ↦ same ∙ outside
    ]
