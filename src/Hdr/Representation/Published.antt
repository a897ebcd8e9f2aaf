-- ===== src/Hdr/Representation/Published.antt =====
-- What `Buckets` publishes, by the bars alone.
use mathlib.Core.List.{append-nil, append_assoc}
use apm_aggregation.Base.{
  ℕ, ◌+◌, ◌-◌, ◌≤◌, ◌<◌, ◌^◌, ◌≡◌, refl, ◌∙◌, true, false, ◌||◌, inl, inr, List, [], ◌∷◌, ◌++◌, map,
  arith,
}
use apm_aggregation.Base.Tests.{if◌then◌else◌, ◌==◌, Bool-cases}
use apm_aggregation.Base.Words.{
  add64, add64-zero, add64-lt, zero-add64, add64_assoc, to_int64, sub32, negative64,
}
use apm_aggregation.Bars.{Bar, IsSortedFrom, IsSortedFrom-mono, Below}
use apm_aggregation.Hdr.Counts.{for_each}
use apm_aggregation.Hdr.Counts.Adds.{IsValid}
use apm_aggregation.Hdr.Iterator.{advance}
use apm_aggregation.Hdr.Iterator.Place.{place, highest_at, advance_by-place, started}
use apm_aggregation.Hdr.Representation.{
  HistogramRepresentation, Buckets, publish, buckets_from, buckets,
}

-- The bars with a positive count.
unfoldable pub positive : List Bar → List Bar
positive [] = []
positive (x ∷ xs) =
    let rest = positive xs in if x.count == 0 || negative64 x.count then rest else x ∷ rest

advance-place :
    (n b highest : ℕ)
    → n ≤ b
    → b < 3328
    → advance (place n highest) (to_int64 (sub32 b n)) ≡ (place b (highest_at b), true)
unfolding advance to_int64 sub32
advance-place n b highest l h =
    let e : negative64 (to_int64 (sub32 b n)) ≡ false = ground arith in
    let d : to_int64 (sub32 b n) ≡ b - n = ground arith in
    let f : n + (b - n) ≡ b = ground arith in
    rw (e, d) (advance_by-place (b - n) n highest (omega arith) ∙ rw f refl)

module _ {F : Type 0} (to_float : ℕ → F) (unscaled : ℕ → ℕ) where
  unfoldable pub total_of : List Bar → ℕ
  total_of [] = 0
  total_of (x ∷ xs) = add64 (unscaled x.count) (total_of xs)

  abbrev pub published : List Bar → Buckets F
  published xs = record {
    total_count = total_of xs;
    counts = map (λ (x : Bar). unscaled x.count) xs;
    values = map (λ (x : Bar). to_float (highest_at x.bucket)) xs;
  }

  abbrev append : Buckets F → Buckets F → Buckets F
  append a b = record {
    total_count = add64 a.total_count b.total_count;
    counts = a.counts ++ b.counts;
    values = a.values ++ b.values;
  }

  buckets_from-published :
      (xs : List Bar) (n highest : ℕ) (acc : Buckets F)
      → IsSortedFrom n xs
      → Below 3328 xs
      → n < 3328
      → acc.total_count < 2 ^ 64
      → buckets_from to_float unscaled xs n (place n highest) acc
        ≡ append acc (published (positive xs))
  unfolding buckets_from positive total_of
  buckets_from-published [] n highest acc s b h g =
      rw (add64-zero acc.total_count g, append-nil acc.counts, append-nil acc.values) refl
  buckets_from-published (x ∷ xs) n highest acc s b h g =
      elim (Bool-cases (x.count == 0 || negative64 x.count)) [
        | inl skip ↦ rw skip (
            buckets_from-published xs n highest acc (IsSortedFrom-mono xs (omega arith) s.1) b.1 h
              g)
        | inr keep ↦
            rw (keep, advance-place n x.bucket highest s.0 b.0)
              (buckets_from-published xs x.bucket (highest_at x.bucket)
                  (publish to_float unscaled acc x.count (highest_at x.bucket))
                  (IsSortedFrom-mono xs (omega arith) s.1) b.1 b.0 (add64-lt _ _)
                ∙ rw
                    (
                      add64_assoc acc.total_count (unscaled x.count) (total_of (positive xs)),
                      append_assoc acc.counts,
                      append_assoc acc.values,
                    )
                    refl)
      ]

  total_of-lt : (xs : List Bar) → total_of xs < 2 ^ 64
  unfolding total_of
  total_of-lt [] = omega arith
  total_of-lt (x ∷ xs) = add64-lt _ _

  -- For a valid histogram whose indices are within the counts array, `Buckets` publishes its bars
  -- with a positive count, in order: each with the highest value that its index holds and with its
  -- unscaled count, and the sum of these counts. The iterator never runs out.
  pub buckets-published :
      (h : HistogramRepresentation)
      → IsValid h.counts_rep
      → Below 3328 (for_each h.counts_rep)
      → buckets to_float unscaled h ≡ published (positive (for_each h.counts_rep))
  unfolding buckets
  buckets-published h t b = rw started (
      buckets_from-published (for_each h.counts_rep) 0 0
        (record { total_count = 0; counts = []; values = [] }) t.sorted b (omega arith)
        (omega arith)
      ∙ rw (zero-add64 _ (total_of-lt (positive (for_each h.counts_rep)))) refl)
