-- ===== src/Hdr/Representation.antt =====
-- `HistogramRepresentation` of aggregators/internal/hdrhistogram/hdrhistogram.go: recording, merging
-- and the buckets that are published. Durations are int64 nanoseconds; what float64 arithmetic does
-- to a count is a parameter.
pub mod Records
pub mod Published
pub mod Runs
use apm_aggregation.Base.{ℕ, ◌-◌, ◌/◌, ◌%◌, ◌^◌, ◌||◌, not, Option, none, some, List, [], ◌∷◌, ◌++◌}
use apm_aggregation.Base.Tests.{ltb, leb, ◌==◌, if◌then◌else◌}
use apm_aggregation.Base.Words.{add64, sub32, to_int32, to_int64, lt32, negative32, negative64}
use apm_aggregation.Base.Panic.{◌>>=◌}
use apm_aggregation.Base.Search.{Slices}
use apm_aggregation.Bars.{Bar}
use apm_aggregation.Hdr.Counts.{HybridCountsRep, empty, add, for_each}
use apm_aggregation.Hdr.Index.{
  lowest_trackable_value, highest_trackable_value, significant_figures, get_counts_len,
  counts_index_for,
}
use apm_aggregation.Hdr.Iterator.{Iterator, iterator, next_count_at_idx, advance}

pub record HistogramRepresentation : Type 0 where
  pub lowest_trackable_value : ℕ
  pub highest_trackable_value : ℕ
  pub significant_figures : ℕ
  pub counts_rep : HybridCountsRep

unfoldable pub new : HistogramRepresentation
new = record {
  lowest_trackable_value = lowest_trackable_value;
  highest_trackable_value = highest_trackable_value;
  significant_figures = significant_figures;
  counts_rep = empty;
}

-- The results of recording: the error that the value is too large, a panic, or the histogram.
pub data Recorded : Type 0 where
  too_large : Recorded
  panicked : Recorded
  recorded : HistogramRepresentation → Recorded

abbrev pub with_counts : HistogramRepresentation → Option HybridCountsRep → Recorded
with_counts h none = panicked
with_counts h (some c) = recorded (record h { counts_rep = c })

-- `d.Microseconds()`: the quotient of int64 rounds to zero.
unfoldable pub microseconds : ℕ → ℕ
microseconds d = if negative64 d then (2 ^ 64 - (2 ^ 64 - d) / 1000) % 2 ^ 64 else d / 1000

module _ (lib : Slices Bar) where
  -- `RecordValues` for an index.
  unfoldable pub record_at : HistogramRepresentation → ℕ → ℕ → Recorded
  unfolding get_counts_len to_int32 add
  record_at h idx n =
      if negative32 idx || not (lt32 idx (to_int32 get_counts_len))
      then too_large
      else with_counts h (add lib h.counts_rep idx n)

  unfoldable pub record_values : HistogramRepresentation → ℕ → ℕ → Recorded
  unfolding counts_index_for record_at
  record_values h v n = record_at h (counts_index_for v) n

  -- `scaled n` is `int64(math.Round(n * histogramCountScale))`.
  unfoldable pub record_duration :
      {F : Type 0} → (F → ℕ) → HistogramRepresentation → ℕ → F → Recorded
  unfolding record_values microseconds
  record_duration scaled h d n = record_values h (microseconds d) (scaled n)

  -- The callback of `Merge` for each bar.
  unfoldable pub add_bars : List Bar → HybridCountsRep → Option HybridCountsRep
  unfolding add
  add_bars [] c = some c
  add_bars (x ∷ xs) c = do c' ← add lib c x.bucket x.count; add_bars xs c'

  unfoldable pub merge_representation :
      HistogramRepresentation → Option HistogramRepresentation → Option HistogramRepresentation
  unfolding add_bars for_each
  merge_representation h none = some h
  merge_representation h (some from) = do
    c ← add_bars (for_each from.counts_rep) h.counts_rep
    some (record h { counts_rep = c })

-- The variables that `Buckets` writes.
pub record Buckets (F : Type 0) : Type 0 where
  pub total_count : ℕ
  pub counts : List ℕ
  pub values : List F

-- `to_float` is the conversion of an int64 to float64, and `unscaled c` is
-- `uint64(math.Round(float64(c) / histogramCountScale))`.
module _ {F : Type 0} (to_float : ℕ → F) (unscaled : ℕ → ℕ) where
  -- The statements under `iter.advance` for a bar, `value` being the iterator's.
  abbrev pub publish : Buckets F → ℕ → ℕ → Buckets F
  publish acc scaled_counts value = record {
    total_count = add64 acc.total_count (unscaled scaled_counts);
    counts = acc.counts ++ unscaled scaled_counts ∷ [];
    values = acc.values ++ to_float value ∷ [];
  }

  -- The callback of `Buckets` for each bar.
  unfoldable pub buckets_from : List Bar → ℕ → Iterator → Buckets F → Buckets F
  unfolding advance
  buckets_from [] prev_bucket iter acc = acc
  buckets_from (x ∷ xs) prev_bucket iter acc =
      let (j, ok) = advance iter (to_int64 (sub32 x.bucket prev_bucket)) in
      let skipped = buckets_from xs prev_bucket iter acc in
      let published =
        buckets_from xs x.bucket j
          (if ok then publish acc x.count j.highest_equivalent_value else acc) in
      if x.count == 0 || negative64 x.count then skipped else published

  unfoldable pub buckets : HistogramRepresentation → Buckets F
  unfolding buckets_from for_each iterator next_count_at_idx
  buckets h =
      buckets_from (for_each h.counts_rep) 0 (next_count_at_idx iterator).0
        (record { total_count = 0; counts = []; values = [] })
