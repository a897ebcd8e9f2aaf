-- ===== src/Merger/Histogram/Slices.antt =====
-- The general case of `mergeHistogram`: the length that the result needs, the slices grown to it,
-- whatever the backing arrays hold there, and the loop.
use apm_aggregation.Base.{
  ℕ, zero, suc, ◌+◌, ◌-◌, ◌≤◌, ◌≡◌, refl, sym, ap, subst, ◌∙◌, some, List, [], ◌∷◌, ◌++◌, arith,
}
use mathlib.Core.List.{append-nil, map-append}
use apm_aggregation.Base.Lists.{length, drop, length-append, length-map}
use apm_aggregation.Bars.{Bar, Below, InRange, InRange-right, IsSortedFrom, merge}
use apm_aggregation.Bars.Snoc.{merge-Below}
use apm_aggregation.Base.Panic.{◌>>=◌}
use apm_aggregation.Pb.{HdrHistogram}
use apm_aggregation.Merger.Histogram.{shrink, fresh, grow_to, merge_slices}
use apm_aggregation.Merger.Histogram.Fill.{
  buckets_of, counts_of, Columns, sign32_eq, sign32_lt, sign32_gt,
}
use apm_aggregation.Merger.Histogram.Loop.{take-length_append, drop-length_append}
use apm_aggregation.Merger.Histogram.Rounds.{Round}
use apm_aggregation.Merger.Histogram.Correct.{fills, length-le-merge}

-- The histogram holds these bars: parallel slices, strictly ascending buckets, all in range.
pub record Represents (h : HdrHistogram) (bs : List Bar) : Type 0 where
  pub columns : Columns h bs
  pub sorted : IsSortedFrom 0 bs
  pub ranged : InRange bs

-- The length that the first loop computes is that of the merge.
shrink-merge :
    (e n : ℕ) (ts fs : List Bar)
    → n ≡ e + (length ts + length fs)
    → InRange ts
    → InRange fs
    → shrink n (buckets_of ts) (buckets_of fs) ≡ e + length (merge ts fs)
unfolding shrink merge
shrink-merge e n [] fs h r q = omega arith
shrink-merge e n (t ∷ ts) [] h r q = omega arith
shrink-merge e n (t ∷ ts) (f ∷ fs) h r q = ground (
  arith,
  sign32_lt t.bucket f.bucket q.0.0,
  sign32_eq t.bucket f.bucket r.0.0,
  sign32_gt t.bucket f.bucket r.0.0,
  shrink-merge (suc e) n ts (f ∷ fs) (omega arith) r.1 q,
  shrink-merge (suc e) n (t ∷ ts) fs (omega arith) r q.1,
  shrink-merge (suc e) (n - 1) ts fs (omega arith) r.1 q.1,
)

-- The stale slots behind the slices, as bars.
stale_bars : (ℕ → ℕ) → (ℕ → ℕ) → ℕ → ℕ → List Bar
stale_bars sb sc i zero = []
stale_bars sb sc i (suc k) = record { bucket = sb i; count = sc i } ∷ stale_bars sb sc (suc i) k

stale_bars-buckets :
    (sb sc : ℕ → ℕ) (i k : ℕ)
    → (fresh sb i k ≡ buckets_of (stale_bars sb sc i k))
      × (fresh sc i k ≡ counts_of (stale_bars sb sc i k))
      × (length (stale_bars sb sc i k) ≡ k)
unfolding fresh stale_bars
stale_bars-buckets sb sc i zero = (refl, refl, refl)
stale_bars-buckets sb sc i (suc k) =
    let (b, c, n) = stale_bars-buckets sb sc (suc i) k in
    (ap (◌∷◌ (sb i)) b, ap (◌∷◌ (sc i)) c, ap suc n)

grow_to_lem :
    (stale : ℕ → ℕ) (xs : List ℕ) (len : ℕ)
    → length xs ≤ len
    → grow_to stale xs len ≡ some (xs ++ fresh stale (length xs) (len - length xs))
unfolding grow_to
grow_to_lem stale xs len h = ground arith

-- `front` lies before all of `from`, `back` from its first bucket on.
module _ (sb sc : ℕ → ℕ) (to from : HdrHistogram) (front back : List Bar) (f : Bar) (fs : List Bar)
    (rt : Represents to (front ++ back)) (rf : Represents from (f ∷ fs))
    (below : Below f.bucket front) where
  start-Round : Round f.bucket front from (front ++ back) (f ∷ fs) []
  start-Round = record {
    cols = subst (Columns from) (sym (append-nil (f ∷ fs))) rf.columns;
    sorted_to = rt.sorted;
    sorted_from = (omega arith, rf.sorted.1);
    range_to = rt.ranged;
    range_from = rf.ranged;
    reach = omega (arith, length-append front back);
    prefix = take-length_append front back;
    below = below;
  }

  abbrev merged : List Bar
  merged = merge (front ++ back) (f ∷ fs)

  length_to : length to.buckets ≡ length (front ++ back)
  length_to = ap length rt.columns.buckets ∙ length-map _ (front ++ back)

  length_to_counts : length to.counts ≡ length (front ++ back)
  length_to_counts = ap length rt.columns.counts ∙ length-map _ (front ++ back)

  length_from : length from.buckets ≡ length (f ∷ fs)
  length_from = ap length rf.columns.buckets ∙ length-map _ (f ∷ fs)

  drop_front : drop (length front) to.buckets ≡ buckets_of back
  drop_front =
      rw (rt.columns.buckets, map-append (λ (b : Bar). b.bucket) front back)
        (subst (λ (n : ℕ). drop n (buckets_of front ++ buckets_of back) ≡ buckets_of back)
          (length-map (λ (b : Bar). b.bucket) front)
          (drop-length_append (buckets_of front) (buckets_of back)))

  required :
      shrink (length to.buckets + length from.buckets) (drop (length front) to.buckets) from.buckets
      ≡ length merged
  required =
      rw (drop_front, rf.columns.buckets)
        (shrink-merge (length front) _ back (f ∷ fs)
            (omega
              (arith, length_to, length-append front back, length-map (λ (b : Bar). b.bucket) fs))
            (InRange-right front back rt.ranged) rf.ranged
          ∙ sym (
              ap length (merge-Below front back f fs below)
              ∙ length-append front (merge back (f ∷ fs))))

  gap : List Bar
  gap = stale_bars sb sc (length (front ++ back)) (length merged - length (front ++ back))

  abbrev grown : List Bar
  grown = (front ++ back) ++ (gap ++ [])

  grown_buckets : grow_to sb to.buckets (length merged) ≡ some (buckets_of grown)
  unfolding gap
  grown_buckets =
      grow_to_lem sb to.buckets (length merged)
        (omega (arith, length_to, length-le-merge (front ++ back) (f ∷ fs)))
      ∙ ap some (
          rw
            (
              length_to,
              (stale_bars-buckets sb sc (length (front ++ back))
                  (length merged - length (front ++ back))).0,
              rt.columns.buckets,
              append-nil,
            )
            (sym (map-append (λ (b : Bar). b.bucket) (front ++ back) _)))

  grown_counts : grow_to sc to.counts (length merged) ≡ some (counts_of grown)
  unfolding gap
  grown_counts =
      grow_to_lem sc to.counts (length merged)
        (omega (arith, length_to_counts, length-le-merge (front ++ back) (f ∷ fs)))
      ∙ ap some (
          rw
            (
              length_to_counts,
              (stale_bars-buckets sb sc (length (front ++ back))
                  (length merged - length (front ++ back))).1,
              rt.columns.counts,
              append-nil,
            )
            (sym (map-append (λ (b : Bar). b.count) (front ++ back) _)))

  room : length (front ++ back) + length gap ≡ length merged
  unfolding gap
  room = omega (
    arith,
    (stale_bars-buckets sb sc (length (front ++ back)) (length merged - length (front ++ back))).2,
    length-le-merge (front ++ back) (f ∷ fs),
  )

  pub merge_slices_lem :
      merge_slices sb sc to from (length front)
      ≡ some (record to { buckets = buckets_of merged; counts = counts_of merged })
  unfolding merge_slices
  merge_slices_lem = rw (
    required,
    grown_buckets,
    ◌>>=◌,
    grown_counts,
    ◌>>=◌,
    length_to,
    length_from,
    fills f.bucket front from (length merged) (front ++ back) (f ∷ fs) [] gap [] start-Round room
        refl,
    append-nil,
  )
