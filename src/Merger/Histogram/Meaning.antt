-- ===== src/Merger/Histogram/Meaning.antt =====
-- `mergeHistogram` of aggregators/merger.go compared with the reference merge of the bars.
use apm_aggregation.Base.{
  ℕ, ◌≡◌, refl, sym, ap, subst, ◌∙◌, Bool, true, ◌&&◌, Option, some, List, [], ◌∷◌, ◌++◌, arith,
}
use apm_aggregation.Base.Tests.{◌==◌, if◌then◌else◌}
use apm_aggregation.Base.Lists.{length, length-map}
use apm_aggregation.Base.Words.{add64}
use apm_aggregation.Base.Search.{find}
use apm_aggregation.Bars.{Bar, Below, InRange-right, merge, count_at}
use apm_aggregation.Bars.Snoc.{merge-nil}
use apm_aggregation.Bars.Merge.{merge-IsSortedFrom, merge-InRange, count_at-merge}
use apm_aggregation.Bars.Place.{Place, missing, found, place, merge_found}
use apm_aggregation.Pb.{HdrHistogram}
use apm_aggregation.Merger.Histogram.{
  first_cmp, bump_one, merge_slices, merge_into, merge_histogram,
}
use apm_aggregation.Merger.Histogram.Fill.{buckets_of}
use apm_aggregation.Merger.Histogram.Slices.{Represents, merge_slices_lem}
use apm_aggregation.Merger.Histogram.Start.{with_bars, bump_one_lem, find_missing, find_found}

merge_nil_left : {bs : List Bar} → merge [] bs ≡ bs
unfolding merge
merge_nil_left = refl

module _ (sb sc : ℕ → ℕ) (to from : HdrHistogram) where
  -- The branch after the search.
  abbrev branch : ℕ × Bool → Option HdrHistogram
  branch r =
      if r.1 && length from.buckets == 1
      then bump_one to from r.0
      else merge_slices sb sc to from r.0

  shared :
      (xs : List Bar) (x : Bar) (ys : List Bar) (f : Bar) (fs : List Bar)
      → Represents to (xs ++ x ∷ ys)
      → Represents from (f ∷ fs)
      → Below f.bucket xs
      → x.bucket ≡ f.bucket
      → branch (length xs, true) ≡ some (with_bars to (merge (xs ++ x ∷ ys) (f ∷ fs)))
  shared xs x ys f [] rt rf below same = rw (ap length rf.columns.buckets) (
      bump_one_lem to from xs x f ys rt.columns rf.columns
      ∙ ap (λ bs. some (with_bars to bs)) (sym (merge_found xs x ys f.bucket f.count below same)))
  shared xs x ys f (g ∷ fs) rt rf below same =
      rw (ap length rf.columns.buckets)
        (ground (arith, merge_slices_lem sb sc to from xs (x ∷ ys) f (g ∷ fs) rt rf below))

  placed :
      (ts : List Bar) (f : Bar) (fs : List Bar)
      → Represents to ts
      → Represents from (f ∷ fs)
      → Place f.bucket ts
      → branch (find (length ts) (first_cmp (buckets_of ts) f.bucket))
        ≡ some (with_bars to (merge ts (f ∷ fs)))
  placed ts f fs rt rf (missing xs ys e below above) =
      let at : Represents to (xs ++ ys) = subst (Represents to) e rt in
      rw e (
        rw (find_missing f.bucket xs ys rf.ranged.0.0 below above (InRange-right xs ys at.ranged))
          (merge_slices_lem sb sc to from xs ys f fs at rf below))
  placed ts f fs rt rf (found xs x ys e below same above) =
      let at : Represents to (xs ++ x ∷ ys) = subst (Represents to) e rt in
      rw e (
        rw
          (find_found f.bucket xs x ys rf.ranged.0.0 below same above
            (InRange-right xs (x ∷ ys) at.ranged).1)
          (shared xs x ys f fs at rf below same))

  into :
      (ts fs : List Bar)
      → Represents to ts
      → Represents from fs
      → merge_into sb sc to from (buckets_of ts) (buckets_of fs) ≡ some (with_bars to (merge ts fs))
  unfolding merge_into
  into ts [] rt rf =
      rw (merge-nil ts)
        (λ i. some (record to { buckets = rt.columns.buckets i; counts = rt.columns.counts i }))
  into [] (f ∷ fs) rt rf = rw merge_nil_left (λ i. some (record to {
    buckets = rt.columns.buckets i ++ rf.columns.buckets i;
    counts = rt.columns.counts i ++ rf.columns.counts i;
  }))
  into (t ∷ ts) (f ∷ fs) rt rf =
      subst
        (λ (bs : List ℕ).
          branch (find (length bs) (first_cmp bs f.bucket))
          ≡ some (with_bars to (merge (t ∷ ts) (f ∷ fs))))
        (sym rt.columns.buckets)
        (subst
          (λ (n : ℕ).
            branch (find n (first_cmp (buckets_of (t ∷ ts)) f.bucket))
            ≡ some (with_bars to (merge (t ∷ ts) (f ∷ fs))))
          (sym (length-map (λ (b : Bar). b.bucket) (t ∷ ts)))
          (placed (t ∷ ts) f fs rt rf (place f.bucket 0 (t ∷ ts) rt.sorted)))

-- What a histogram merge leaves in `to`: the merged bars, well formed, and the rest as it was.
pub record Merges (to : HdrHistogram) (ts fs : List Bar) (to' : HdrHistogram) : Type 0 where
  pub represents : Represents to' (merge ts fs)
  pub counts : (q : ℕ) → count_at q (merge ts fs) ≡ add64 (count_at q ts) (count_at q fs)
  pub lowest : to'.lowest_trackable_value ≡ to.lowest_trackable_value
  pub highest : to'.highest_trackable_value ≡ to.highest_trackable_value
  pub figures : to'.significant_figures ≡ to.significant_figures

-- For two histograms that represent sorted bars in range, `mergeHistogram` does not panic, whatever
-- stands behind the slices. It leaves the reference merge of the bars: sorted and in range, with
-- bucket by bucket the int64 sum of the counts, and nothing else of `to` changes.
pub merge_histogram-Merges :
    (sb sc : ℕ → ℕ) (to from : HdrHistogram) (ts fs : List Bar)
    → Represents to ts
    → Represents from fs
    → (to' : HdrHistogram) × (merge_histogram sb sc to from ≡ some to') × Merges to ts fs to'
unfolding merge_histogram
merge_histogram-Merges sb sc to from ts fs rt rf = (
  with_bars to (merge ts fs),
  simp (rt.columns.buckets, rf.columns.buckets) (into sb sc to from ts fs rt rf),
  record {
    represents = record {
      columns = record { buckets = refl; counts = refl };
      sorted = merge-IsSortedFrom 0 ts fs rt.sorted rf.sorted;
      ranged = merge-InRange ts fs rt.ranged rf.ranged;
    };
    counts = λ q. count_at-merge q ts fs;
    lowest = refl;
    highest = refl;
    figures = refl;
  },
)
