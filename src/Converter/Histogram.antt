-- ===== src/Converter/Histogram.antt =====
-- The histogram of a single duration, as `addTransactionMetrics` of aggregators/converter.go fills it.
use apm_aggregation.Base.{ℕ, ◌^◌, ◌<◌, ◌≤◌, ◌≡◌, refl, sym, ap, ◌∙◌, subst, inl, inr, some, arith}
use apm_aggregation.Base.Tests.{◌==◌, ltb, lt→ltb, le→ltb, if◌then◌else◌}
use apm_aggregation.Base.Words.{zero-add64}
use apm_aggregation.Base.Search.{Slices}
use apm_aggregation.Bars.{Bar, count_at}
use apm_aggregation.Pb.{HdrHistogram}
use apm_aggregation.Hdr.Counts.{for_each}
use apm_aggregation.Hdr.Counts.Adds.{IsValid}
use apm_aggregation.Hdr.Index.{counts_index_for}
use apm_aggregation.Hdr.Representation.{HistogramRepresentation, new, microseconds, record_duration}
use apm_aggregation.Hdr.Representation.Records.{record_values_cases}
use apm_aggregation.Hdr.Representation.Runs.{new-IsTracked, new_count}
use apm_aggregation.Codec.Histograms.{set_histogram_proto, set_histogram_proto-Represents}
use apm_aggregation.Merger.Histogram.Slices.{Represents}
use apm_aggregation.Merger.Groups.Transactions.{bars_of, bars_of-Represents}
use apm_aggregation.Converter.Event.{Floats}
use apm_aggregation.Converter.Builders.{single_histogram}

-- What a duration counts at index `q`: its scaled count if it has that index, and nothing from 2 ^ 32
-- microseconds on or of a negative number of them.
unfoldable pub duration_count : ℕ → ℕ → ℕ → ℕ
unfolding microseconds
duration_count q duration n =
    if ltb (microseconds duration) (2 ^ 32)
    then (if counts_index_for (microseconds duration) == q then n else 0)
    else 0

microseconds-lt : (d : ℕ) → d < 2 ^ 64 → microseconds d < 2 ^ 64
unfolding microseconds
microseconds-lt d h = ground arith

duration_count-low :
    (q d n : ℕ)
    → microseconds d < 2 ^ 32
    → duration_count q d n ≡ (if counts_index_for (microseconds d) == q then n else 0)
unfolding duration_count
duration_count-low q d n h = rw (lt→ltb (microseconds d) (2 ^ 32) h) refl

duration_count-high : (q d n : ℕ) → 2 ^ 32 ≤ microseconds d → duration_count q d n ≡ 0
unfolding duration_count
duration_count-high q d n h = rw (le→ltb (microseconds d) (2 ^ 32) h) refl

test-lt : (i q n : ℕ) → n < 2 ^ 64 → (if i == q then n else 0) < 2 ^ 64
test-lt i q n h = ground arith

module _ {F : Type 0} (f : Floats F) (lib : Slices Bar) where
  -- A message that is well formed and counts the duration.
  pub record IsSingle (duration : ℕ) (count : F) (h : HdrHistogram) : Type 0 where
    pub well_formed : Represents h (bars_of h)
    pub counts : (q : ℕ) → count_at q (bars_of h) ≡ duration_count q duration (f.scaled count)

  single :
      (duration : ℕ) (count : F) (h : HistogramRepresentation)
      → IsValid h.counts_rep
      → ((q : ℕ) → count_at q (for_each h.counts_rep) ≡ duration_count q duration (f.scaled count))
      → IsSingle duration count (set_histogram_proto h)
  single duration count h t e =
      let r = set_histogram_proto-Represents h t in
      let same = bars_of-Represents (set_histogram_proto h) (for_each h.counts_rep) r in
      record {
        well_formed = subst (Represents (set_histogram_proto h)) (sym same) r;
        counts = λ q. ap (count_at q) same ∙ e q;
      }

  pub single_histogram-IsSingle :
      (duration : ℕ) (count : F)
      → duration < 2 ^ 64
      → (h : HdrHistogram) × (single_histogram f lib duration count ≡ some h)
        × IsSingle duration count h
  unfolding single_histogram record_duration
  single_histogram-IsSingle duration count l =
      let v = microseconds duration in
      let n = f.scaled count in
      elim (record_values_cases lib new v n new-IsTracked.valid (microseconds-lt duration l)
        (f.scaled-lt count)) [
          | inl (low, c, run, a) ↦
              let h = record new { counts_rep = c } in
              (
                set_histogram_proto h,
                rw run refl,
                single duration count h a.valid (λ q.
                    a.counts q
                    ∙ rw (new_count q)
                        (zero-add64 _ (test-lt (counts_index_for v) q n (f.scaled-lt count)))
                    ∙ sym (duration_count-low q duration n low)),
              )
          | inr (high, run) ↦ (
            set_histogram_proto new,
            rw run refl,
            single duration count new new-IsTracked.valid
                (λ q. new_count q ∙ sym (duration_count-high q duration n high)),
          )
        ]
