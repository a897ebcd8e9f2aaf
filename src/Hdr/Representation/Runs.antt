-- ===== src/Hdr/Representation/Runs.antt =====
-- Values recorded one after the other in a new histogram, `RecordValues`, and what `Buckets` of
-- aggregators/internal/hdrhistogram/hdrhistogram.go publishes of them.
use apm_aggregation.Base.{ℕ, ◌<◌, ◌^◌, ◌≡◌, refl, sym, ◌∙◌, inl, inr, List, [], ◌∷◌, arith}
use apm_aggregation.Base.Lists.{All}
use apm_aggregation.Base.Tests.{if◌then◌else◌, ◌==◌}
use apm_aggregation.Base.Words.{add64, add64_assoc, zero-add64, add64-zero, add64-lt}
use apm_aggregation.Base.Search.{Slices}
use apm_aggregation.Bars.{Bar, Below, count_at, merge}
use apm_aggregation.Bars.Merge.{count_at-lt}
use apm_aggregation.Bars.Place.{bar}
use apm_aggregation.Hdr.Counts.{for_each}
use apm_aggregation.Hdr.Counts.Adds.{IsValid, Added}
use apm_aggregation.Hdr.Index.{counts_index_for}
use apm_aggregation.Hdr.Index.Range.{index-lt}
use apm_aggregation.Hdr.Representation.{
  HistogramRepresentation, new, Recorded, recorded, too_large, panicked, record_values, buckets,
}
use apm_aggregation.Hdr.Representation.Records.{record_values_cases}
use apm_aggregation.Hdr.Representation.Published.{positive, published, buckets-published}

merge-Below : (n : ℕ) (xs ys : List Bar) → Below n xs → Below n ys → Below n (merge xs ys)
unfolding merge
merge-Below n [] ys a b = b
merge-Below n (x ∷ xs) [] a b = a
merge-Below n (x ∷ xs) (y ∷ ys) a b = ground (
  arith,
  merge-Below n xs (y ∷ ys) a.1 b,
  merge-Below n xs ys a.1 b.1,
  merge-Below n (x ∷ xs) ys a b.1,
)

Added-Below : (n b v : ℕ) (s t : List Bar) → Below n s → b < n → Added s b v t → Below n t
Added-Below n b v s t a h (inl e) = rw e (merge-Below n s (bar b v ∷ []) a (h, tt))
Added-Below n b v s t a h (inr (_, _, e)) = rw e a

-- A histogram that is valid and within the counts array.
pub record IsTracked (h : HistogramRepresentation) : Type 0 where
  pub valid : IsValid h.counts_rep
  pub within : Below 3328 (for_each h.counts_rep)

pub new-IsTracked : IsTracked new
unfolding new for_each
new-IsTracked = record { valid = record { sorted = tt; ranged = tt }; within = tt }

-- A value and its count, as they can be recorded.
abbrev pub IsRecordable : ℕ × ℕ → Type 0
IsRecordable (v, n) = (v < 2 ^ 32) × (n < 2 ^ 64)

-- What the recordings count at index `q`.
unfoldable pub recorded_at : ℕ → List (ℕ × ℕ) → ℕ
recorded_at q [] = 0
recorded_at q ((v, n) ∷ rest) =
    add64 (if counts_index_for v == q then n else 0) (recorded_at q rest)

recorded_at-lt : (q : ℕ) (vs : List (ℕ × ℕ)) → recorded_at q vs < 2 ^ 64
unfolding recorded_at
recorded_at-lt q [] = omega arith
recorded_at-lt q ((v, n) ∷ rest) = add64-lt _ _

pub new_count : (q : ℕ) → count_at q (for_each new.counts_rep) ≡ 0
unfolding new for_each count_at
new_count q = refl

module _ (lib : Slices Bar) where
  -- Recordings in a row; an error ends them.
  unfoldable pub record_all : Recorded → List (ℕ × ℕ) → Recorded
  record_all r [] = r
  record_all too_large (x ∷ rest) = too_large
  record_all panicked (x ∷ rest) = panicked
  record_all (recorded h) ((v, n) ∷ rest) = record_all (record_values lib h v n) rest

  one :
      (h : HistogramRepresentation) (v n : ℕ)
      → IsTracked h
      → v < 2 ^ 32
      → n < 2 ^ 64
      → (h' : HistogramRepresentation) × (record_values lib h v n ≡ recorded h')
        × IsTracked h'
        × ((q : ℕ)
            → count_at q (for_each h'.counts_rep)
              ≡ add64
                  (count_at q (for_each h.counts_rep))
                  (if counts_index_for v == q then n else 0))
  one h v n t hv hn = elim (record_values_cases lib h v n t.valid (omega arith) hn) [
    | inl (_, c, run, a) ↦ (
      record h { counts_rep = c },
      run,
      record {
        valid = a.valid;
        within =
            Added-Below 3328 (counts_index_for v) n (for_each h.counts_rep) (for_each c) t.within
              (index-lt v hv) a.bars;
      },
      a.counts,
    )
    | inr (high, _) ↦ absurd (omega arith)
  ]

  all :
      (h : HistogramRepresentation) (vs : List (ℕ × ℕ))
      → IsTracked h
      → All IsRecordable vs
      → (h' : HistogramRepresentation) × (record_all (recorded h) vs ≡ recorded h')
        × IsTracked h'
        × ((q : ℕ)
            → count_at q (for_each h'.counts_rep)
              ≡ add64 (count_at q (for_each h.counts_rep)) (recorded_at q vs))
  unfolding record_all recorded_at
  all h [] t p = (h, refl, t, λ q. sym (add64-zero _ (count_at-lt q (for_each h.counts_rep))))
  all h ((v, n) ∷ rest) t p =
      let (mid, run, s, e) = one h v n t p.0.0 p.0.1 in
      let (end, more, u, f) = all mid rest s p.1 in
      (end, rw run more, u, λ q. f q ∙ rw (e q) (add64_assoc _ _ _))

  -- Any values below 2 ^ 32, each with an int64 count, recorded in a new histogram: no recording
  -- fails, every index counts what was recorded at it (modulo 2 ^ 64), and `Buckets` publishes the
  -- bars with a positive count.
  pub record_all-published :
      {F : Type 0} (to_float : ℕ → F) (unscaled : ℕ → ℕ) (vs : List (ℕ × ℕ))
      → All IsRecordable vs
      → (h : HistogramRepresentation) × (record_all (recorded new) vs ≡ recorded h)
        × ((q : ℕ) → count_at q (for_each h.counts_rep) ≡ recorded_at q vs)
        × (buckets to_float unscaled h
            ≡ published to_float unscaled (positive (for_each h.counts_rep)))
  record_all-published to_float unscaled vs p =
      let (h, run, t, e) = all new vs new-IsTracked p in
      (
        h,
        run,
        λ q. e q ∙ rw (new_count q) (zero-add64 _ (recorded_at-lt q vs)),
        buckets-published to_float unscaled h t.valid t.within,
      )
