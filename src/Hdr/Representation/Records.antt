-- ===== src/Hdr/Representation/Records.antt =====
-- What `RecordValues` and `Merge` do to the counts of a histogram.
use apm_aggregation.Base.{
  ℕ, ◌≤◌, ◌<◌, ◌^◌, ◌≡◌, refl, sym, ◌∙◌, ◌⊎◌, inl, inr, some, List, [], ◌∷◌, arith,
}
use apm_aggregation.Base.Words.{add64, add64-zero, add64_assoc, to_int32}
use apm_aggregation.Base.Search.{Slices}
use apm_aggregation.Bars.{Bar, InRange, count_at}
use apm_aggregation.Bars.Merge.{count_at-lt}
use apm_aggregation.Hdr.Counts.{HybridCountsRep, add, for_each}
use apm_aggregation.Hdr.Counts.Adds.{IsValid, Adds, add-Adds}
use apm_aggregation.Hdr.Index.{counts_index_for, get_counts_len}
use apm_aggregation.Hdr.Index.Range.{counts_index_for_range}
use apm_aggregation.Hdr.Representation.{
  HistogramRepresentation, recorded, too_large, record_at, record_values, add_bars,
  merge_representation,
}

pub record Merged (to from : List Bar) (c : HybridCountsRep) : Type 0 where
  pub valid : IsValid c
  pub counts : (q : ℕ) → count_at q (for_each c) ≡ add64 (count_at q to) (count_at q from)

module _ (lib : Slices Bar) where
  -- The two ways of a recording.
  abbrev pub Outcome : HistogramRepresentation → ℕ → ℕ → Type 0
  Outcome h v n =
      ((v < 2 ^ 32)
        × (c : HybridCountsRep) × (record_values lib h v n ≡ recorded (record h { counts_rep = c }))
        × Adds h.counts_rep (counts_index_for v) n c)
      ⊎ ((2 ^ 32 ≤ v) × (record_values lib h v n ≡ too_large))

  too_large_at :
      (h : HistogramRepresentation) (idx n : ℕ)
      → 3328 ≤ idx
      → idx < 2 ^ 31
      → record_at lib h idx n ≡ too_large
  unfolding record_at to_int32 get_counts_len
  too_large_at h idx n l u = ground arith

  recorded_at :
      (h : HistogramRepresentation) (idx n : ℕ) (c : HybridCountsRep)
      → idx < 3328
      → add lib h.counts_rep idx n ≡ some c
      → record_at lib h idx n ≡ recorded (record h { counts_rep = c })
  unfolding record_at to_int32 get_counts_len
  recorded_at h idx n c l run = rw run (ground arith)

  -- Recording a value with a count in a valid histogram. A value below 2 ^ 32, which includes values
  -- past the highest one of 3600000000, adds the count at the index of the value and at no other. A
  -- larger or a negative value is an error and records nothing. There is no panic.
  pub record_values_cases :
      (h : HistogramRepresentation) (v n : ℕ)
      → IsValid h.counts_rep
      → v < 2 ^ 64
      → n < 2 ^ 64
      → Outcome h v n
  unfolding record_values
  record_values_cases h v n t hv hn = elim (counts_index_for_range v hv) [
    | inl (low, inside) ↦
        let (c, run, a) = add-Adds lib h.counts_rep (counts_index_for v) n t (omega arith) hn in
        inl (low, c, recorded_at h (counts_index_for v) n c inside run, a)
    | inr (high, above, below) ↦ inr (high, too_large_at h (counts_index_for v) n above below)
  ]

  pub add_bars-Merged :
      (xs : List Bar) (c : HybridCountsRep)
      → InRange xs
      → IsValid c
      → (c' : HybridCountsRep) × (add_bars lib xs c ≡ some c') × Merged (for_each c) xs c'
  unfolding add_bars count_at
  add_bars-Merged [] c r t =
      (c, refl, record { valid = t; counts = λ q. sym (add64-zero _ (count_at-lt q (for_each c))) })
  add_bars-Merged (x ∷ xs) c r t =
      let (mid, one, a) = add-Adds lib c x.bucket x.count t r.0.0 r.0.1 in
      let (end, run, m) = add_bars-Merged xs mid r.1 a.valid in
      (
        end,
        rw one run,
        record { valid = m.valid; counts = λ q. m.counts q ∙ rw (a.counts q) (add64_assoc _ _ _) },
      )

  -- Merging a valid histogram into a valid one returns, keeps the sizes and gives valid counts, which
  -- are in every bucket the int64 sums of the two.
  pub merge_representation-Merged :
      (h from : HistogramRepresentation)
      → IsValid h.counts_rep
      → IsValid from.counts_rep
      → (c : HybridCountsRep) × (merge_representation lib h (some from)
          ≡ some (record h { counts_rep = c }))
        × Merged (for_each h.counts_rep) (for_each from.counts_rep) c
  unfolding merge_representation
  merge_representation-Merged h from t s =
      let (c, run, m) = add_bars-Merged (for_each from.counts_rep) h.counts_rep s.ranged t in
      (c, rw run refl, m)
