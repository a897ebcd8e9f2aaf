-- ===== src/Hdr/Tests.antt =====
-- The hybrid counts at concrete values, with the slices package of Base/Search.
use apm_aggregation.Base.{ℕ, ◌≤◌, ◌<◌, ◌^◌, ◌≡◌, ◌⊎◌, ◌↔◌, none, some, List, [], ◌∷◌, arith}
use apm_aggregation.Base.Search.{scanning}
use apm_aggregation.Bars.{Bar, count_at}
use apm_aggregation.Hdr.Counts.{HybridCountsRep, add, for_each}
use apm_aggregation.Hdr.Counts.Adds.{IsValid, Adds, add-Adds}
use apm_aggregation.Hdr.Index.{counts_index_for, highest_equivalent_value}
use apm_aggregation.Hdr.Index.Range.{lowest_of, counts_index_for_range, counts_index_for_iff}
use apm_aggregation.Hdr.Representation.{
  HistogramRepresentation, new, recorded, buckets, merge_representation,
}
use apm_aggregation.Hdr.Representation.Records.{
  Outcome, record_values_cases, Merged, merge_representation-Merged,
}
use apm_aggregation.Hdr.Representation.Published.{positive, published, buckets-published}
use apm_aggregation.Hdr.Representation.Runs.{recorded_at, record_all, record_all-published}

abbrev one_bar : HybridCountsRep
one_bar = record { bucket = 9; value = 2; s = none }

one_bar-IsValid : IsValid one_bar
unfolding for_each
one_bar-IsValid = record { sorted = (omega arith, tt); ranged = ((omega arith, omega arith), tt) }

add-Adds_example :
    (c' : HybridCountsRep) × (add (scanning Bar) one_bar 4 7 ≡ some c') × Adds one_bar 4 7 c'
add-Adds_example = add-Adds (scanning Bar) one_bar 4 7 one_bar-IsValid (omega arith) (omega arith)

-- Past the highest trackable value, and still within the counts array.
counts_index_for_range_example :
    ((3600000001 < 2 ^ 32) × (counts_index_for 3600000001 < 3328))
    ⊎ ((2 ^ 32 ≤ 3600000001)
        × (3328 ≤ counts_index_for 3600000001)
        × (counts_index_for 3600000001 < 2 ^ 31))
counts_index_for_range_example = counts_index_for_range 3600000001 (omega arith)

counts_index_for_iff_example :
    (counts_index_for 1003 ≡ counts_index_for 1000)
    ↔ ((lowest_of 1000 ≤ 1003) × (1003 ≤ highest_equivalent_value 1000))
counts_index_for_iff_example = counts_index_for_iff 1000 1003 (omega arith) (omega arith)

abbrev histogram : HistogramRepresentation
histogram = record {
  lowest_trackable_value = 1;
  highest_trackable_value = 3600000000;
  significant_figures = 2;
  counts_rep = one_bar;
}

record_values_cases_example : Outcome (scanning Bar) histogram 70000 1000
record_values_cases_example =
    record_values_cases (scanning Bar) histogram 70000 1000 one_bar-IsValid (omega arith)
      (omega arith)

merge_representation-Merged_example :
    (c : HybridCountsRep) × (merge_representation (scanning Bar) histogram (some histogram)
      ≡ some (record histogram { counts_rep = c }))
    × Merged (for_each one_bar) (for_each one_bar) c
merge_representation-Merged_example =
    merge_representation-Merged (scanning Bar) histogram histogram one_bar-IsValid one_bar-IsValid

abbrev values : List (ℕ × ℕ)
values = (1000, 2000) ∷ (70000, 500) ∷ (1003, 1000) ∷ []

buckets-published_example :
    buckets (λ c. c) (λ c. c) histogram ≡ published (λ c. c) (λ c. c) (positive (for_each one_bar))
unfolding for_each
buckets-published_example =
    buckets-published (λ c. c) (λ c. c) histogram one_bar-IsValid (omega arith, tt)

record_all-published_example :
    (h : HistogramRepresentation) × (record_all (scanning Bar) (recorded new) values ≡ recorded h)
    × ((q : ℕ) → count_at q (for_each h.counts_rep) ≡ recorded_at q values)
    × (buckets (λ c. c) (λ c. c) h ≡ published (λ c. c) (λ c. c) (positive (for_each h.counts_rep)))
record_all-published_example =
    record_all-published (scanning Bar) (λ c. c) (λ c. c) values
      ((omega arith, omega arith), ((omega arith, omega arith), ((omega arith, omega arith), tt)))
