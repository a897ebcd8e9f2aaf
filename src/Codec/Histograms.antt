-- ===== src/Codec/Histograms.antt =====
-- The conversions of histograms to and from protobuf, `setHistogramProto`, `histogramToProto` and
-- `histogramFromProto` of aggregators/codec.go. The capacities of the message's slices only spare an
-- allocation. An index out of range is `none`.
use apm_aggregation.Base.{ℕ, ◌≡◌, refl, ap, ◌∙◌, inl, inr, Option, none, some, List, [], ◌∷◌, map}
use apm_aggregation.Base.Tests.{Option-cases}
use apm_aggregation.Base.Panic.{◌>>=◌}
use apm_aggregation.Base.Words.{zero-add64}
use apm_aggregation.Base.Search.{Slices}
use apm_aggregation.Bars.{Bar, count_at}
use apm_aggregation.Bars.Merge.{count_at-lt}
use apm_aggregation.Pb.{HdrHistogram}
use apm_aggregation.Hdr.Counts.{HybridCountsRep, add, for_each, reset, truncated}
use apm_aggregation.Hdr.Counts.Adds.{IsValid}
use apm_aggregation.Hdr.Representation.{HistogramRepresentation, add_bars}
use apm_aggregation.Hdr.Representation.Records.{add_bars-Merged}
use apm_aggregation.Merger.Histogram.Slices.{Represents}

unfoldable pub set_histogram_proto : HistogramRepresentation → HdrHistogram
unfolding for_each
set_histogram_proto h = record {
  lowest_trackable_value = h.lowest_trackable_value;
  highest_trackable_value = h.highest_trackable_value;
  significant_figures = h.significant_figures;
  counts = map (λ (b : Bar). b.count) (for_each h.counts_rep);
  buckets = map (λ (b : Bar). b.bucket) (for_each h.counts_rep);
}

unfoldable pub histogram_to_proto : Option HistogramRepresentation → Option HdrHistogram
unfolding set_histogram_proto
histogram_to_proto none = none
histogram_to_proto (some h) = some (set_histogram_proto h)

module _ (lib : Slices Bar) where
  -- The loop of `histogramFromProto`.
  unfoldable pub add_columns : List ℕ → List ℕ → HybridCountsRep → Option HybridCountsRep
  unfolding add
  add_columns [] counts c = some c
  add_columns (b ∷ buckets) [] c = none
  add_columns (b ∷ buckets) (n ∷ counts) c = do c' ← add lib c b n; add_columns buckets counts c'

  unfoldable pub histogram_from_proto :
      HistogramRepresentation → Option HdrHistogram → Option HistogramRepresentation
  unfolding add_columns reset
  histogram_from_proto h none = some h
  histogram_from_proto h (some pb) = do
    c ← add_columns pb.buckets pb.counts (reset h.counts_rep)
    some (record {
      lowest_trackable_value = pb.lowest_trackable_value;
      highest_trackable_value = pb.highest_trackable_value;
      significant_figures = pb.significant_figures;
      counts_rep = c;
    })

  add_columns-map :
      (xs : List Bar) (c : HybridCountsRep)
      → add_columns (map (λ (b : Bar). b.bucket) xs) (map (λ (b : Bar). b.count) xs) c
        ≡ add_bars lib xs c
  unfolding add_columns add_bars
  add_columns-map [] c = refl
  add_columns-map (x ∷ xs) c = elim (Option-cases (add lib c x.bucket x.count)) [
    | inl panic ↦ rw panic refl
    | inr (c', run) ↦ rw run (add_columns-map xs c')
  ]

-- A valid histogram is written as a message that represents its bars.
pub set_histogram_proto-Represents :
    (h : HistogramRepresentation)
    → IsValid h.counts_rep
    → Represents (set_histogram_proto h) (for_each h.counts_rep)
unfolding set_histogram_proto
set_histogram_proto-Represents h t = record {
  columns = record { buckets = refl; counts = refl };
  sorted = t.sorted;
  ranged = t.ranged;
}

for_each-truncated :
    (s : Option (List Bar)) → for_each (record { bucket = 0; value = 0; s = truncated s }) ≡ []
unfolding for_each
for_each-truncated none = refl
for_each-truncated (some s) = refl

for_each-reset : (c : HybridCountsRep) → for_each (reset c) ≡ []
unfolding reset
for_each-reset c = for_each-truncated c.s

reset-IsValid : (c : HybridCountsRep) → IsValid (reset c)
reset-IsValid c = record { sorted = rw (for_each-reset c) tt; ranged = rw (for_each-reset c) tt }

module _ (lib : Slices Bar) where
  -- A valid histogram is written as a message that represents its bars, as the merge of histograms
  -- wants it. Read back into any histogram, it gives one without a panic that has the same sizes, is
  -- valid and counts the same in every bucket.
  pub histogram_from_proto-to_proto :
      (h to : HistogramRepresentation)
      → IsValid h.counts_rep
      → Represents (set_histogram_proto h) (for_each h.counts_rep)
        × ((c : HybridCountsRep) × (histogram_from_proto lib to (histogram_to_proto (some h))
              ≡ some (record h { counts_rep = c }))
            × IsValid c
            × ((q : ℕ) → count_at q (for_each c) ≡ count_at q (for_each h.counts_rep)))
  unfolding histogram_from_proto histogram_to_proto set_histogram_proto count_at
  histogram_from_proto-to_proto h to t =
      let (c, run, m) =
        add_bars-Merged lib (for_each h.counts_rep) (reset to.counts_rep) t.ranged
          (reset-IsValid to.counts_rep) in
      (
        set_histogram_proto-Represents h t,
        (
          c,
          rw (add_columns-map lib (for_each h.counts_rep) (reset to.counts_rep) ∙ run) refl,
          m.valid,
          λ q.
              m.counts q
              ∙ rw (ap (count_at q) (for_each-reset to.counts_rep))
                  (zero-add64 _ (count_at-lt q (for_each h.counts_rep))),
        ),
      )
