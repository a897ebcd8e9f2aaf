-- ===== src/Merger/Database.antt =====
-- `MergeNewer`, `MergeOlder` and `Finish` of aggregators/merger.go and the `Merge` of
-- aggregators/aggregator.go, which the database calls on encoded values, byte slices that are not looked into. The generated codec of the messages is a parameter: `unmarshal` may refuse a value,
-- `marshal` a message.
mod Tests
use apm_aggregation.Base.{
  ℕ, ◌<◌, ◌^◌, ◌≡◌, refl, ◌∙◌, Bool, true, false, Option, none, some, List, [], ◌∷◌,
}
use apm_aggregation.Base.Words.{add64, zero-add64, add64-lt}
use apm_aggregation.Pb
use apm_aggregation.Models.Env.{Env}
use apm_aggregation.Models.Keys.{Limits}
use apm_aggregation.Codec.Metrics.{combined_metrics_to_proto}
use apm_aggregation.Codec.Metrics.Counts.{combined_metrics_to_proto-Counts}
use apm_aggregation.Codec.Metrics.Written.{IsCounted}
use apm_aggregation.Merger.Combined.{CombinedMetricsMerger}
use apm_aggregation.Merger.Combined.Services.{merge}
use apm_aggregation.Merger.Combined.Invariant.{Kind}
use apm_aggregation.Merger.Combined.ServiceStep.{IsMerger, merger_count}
use apm_aggregation.Merger.Combined.Whole.{
  new_merger, new_merger-IsMerger, new_merger_count, merge-Merged,
}

-- The results of merging a value: the error of the codec, a panic, or the merger.
pub data Merging (F S : Type 0) : Type 0 where
  refused : Merging F S
  panicked : Merging F S
  merged : CombinedMetricsMerger F S → Merging F S

abbrev pub merging_of : {F S : Type 0} → Option (CombinedMetricsMerger F S) → Merging F S
merging_of none = panicked
merging_of (some m) = merged m

module _ {F S D Bytes : Type 0} (env : Env F S D) (sb sc : ℕ → ℕ)
    (unmarshal : Bytes → Option (Pb.CombinedMetrics F)) where
  abbrev merge_message : CombinedMetricsMerger F S → Option (Pb.CombinedMetrics F) → Merging F S
  unfolding merge
  merge_message m none = refused
  merge_message m (some from) = merging_of (merge env sb sc m from)

  unfoldable pub merge_newer : CombinedMetricsMerger F S → Bytes → Merging F S
  unfolding merge_message
  merge_newer m value = merge_message m (unmarshal value)

  unfoldable pub merge_older : CombinedMetricsMerger F S → Bytes → Merging F S
  unfolding merge_message
  merge_older m value = merge_message m (unmarshal value)

  -- The `Merge` that the aggregator gives to the database: a value starts a merger.
  unfoldable pub new_value_merger : Limits → Bytes → Merging F S
  unfolding merge_message new_merger
  new_value_merger limits value = merge_message (new_merger env sb sc limits) (unmarshal value)

module _ {F S D Bytes : Type 0} (env : Env F S D)
    (marshal : Pb.CombinedMetrics F → Option Bytes) where
  -- `includesBase` is not read.
  unfoldable pub finish : CombinedMetricsMerger F S → Bool → Option Bytes
  unfolding combined_metrics_to_proto
  finish m includes_base = marshal (combined_metrics_to_proto env m.metrics)

module _ {F S D Bytes : Type 0} (env : Env F S D) (sb sc : ℕ → ℕ)
    (unmarshal : Bytes → Option (Pb.CombinedMetrics F))
    (marshal : Pb.CombinedMetrics F → Option Bytes) where
  new_value_merger-some :
      (l : Limits) (m' : CombinedMetricsMerger F S) (value : Bytes) (from : Pb.CombinedMetrics F)
      → unmarshal value ≡ some from
      → merge env sb sc (new_merger env sb sc l) from ≡ some m'
      → new_value_merger env sb sc unmarshal l value ≡ merged m'
  unfolding new_value_merger merge_message
  new_value_merger-some l m' value from h run = rw (h, run) refl

  -- If the codec reads back what it writes, then the value that `Finish` returns for a merger within
  -- its limits, whose overflows have their estimators, starts a merger of any limits without error
  -- or panic. That one is within its own limits, and all its groups and overflow buckets
  -- together have, for both kinds of histograms and in every bucket, the counts of the first merger.
  pub finish-new_value_merger :
      ((pb : Pb.CombinedMetrics F) (bytes : Bytes)
        → marshal pb ≡ some bytes
        → unmarshal bytes ≡ some pb)
      → (m : CombinedMetricsMerger F S) (l : Limits) (base : Bool) (value : Bytes) → IsMerger m
      → IsCounted m.metrics
      → finish env marshal m base ≡ some value
      → (m' : CombinedMetricsMerger F S) × (new_value_merger env sb sc unmarshal l value
          ≡ merged m')
        × IsMerger m'
        × ((k : Kind) (q : ℕ) → merger_count k q m'.metrics ≡ merger_count k q m.metrics)
  unfolding finish
  finish-new_value_merger law m l base value v c h =
      let (p, same) = combined_metrics_to_proto-Counts env m v c in
      let pb = combined_metrics_to_proto env m.metrics in
      let (m', run, t) =
        merge-Merged env sb sc (new_merger env sb sc l) pb (new_merger-IsMerger env sb sc l) p in
      (
        m',
        new_value_merger-some l m' value pb (law pb value h) run,
        t.valid,
        λ k q.
            t.counts k q
            ∙ rw (new_merger_count env sb sc l k q, same k q) (zero-add64 _ (add64-lt _ _)),
      )
