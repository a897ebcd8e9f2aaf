-- ===== src/Merger/Histogram/Start.antt =====
-- Where `mergeHistogram` starts: what `sort.Find` finds, and the shortcut for a single bar.
use Prim.Native.Nat.{Ordering}
use apm_aggregation.Base.{
  ℕ, zero, suc, ◌+◌, ◌≤◌, ◌<◌, ◌^◌, ◌≡◌, refl, sym, ap, ◌∙◌, ◌≢◌, true, false, ◌&&◌, some, List, [],
  ◌∷◌, ◌++◌, arith,
}
use apm_aggregation.Base.Tests.{ltb}
use apm_aggregation.Base.Lists.{length, get_or, length-append, All}
use apm_aggregation.Base.Words.{sub32}
use apm_aggregation.Base.Search.{find, find_lem, is_eq}
use apm_aggregation.Bars.{Bar, Below, InRange, combine}
use apm_aggregation.Bars.Place.{Above}
use apm_aggregation.Base.Panic.{◌>>=◌}
use apm_aggregation.Pb.{HdrHistogram}
use apm_aggregation.Merger.Histogram.{sign32, first_cmp, bump_one}
use apm_aggregation.Merger.Histogram.Fill.{
  buckets_of, counts_of, Columns, sign32_eq, sign32_lt, sign32_gt, read-seam, write-seam,
}

-- The histogram with other bars.
abbrev pub with_bars : HdrHistogram → List Bar → HdrHistogram
with_bars h bs = record h { buckets = buckets_of bs; counts = counts_of bs }

get-Below :
    (c : ℕ) (xs ys : List Bar) (a : ℕ)
    → Below c xs
    → a < length xs
    → get_or (buckets_of (xs ++ ys)) a 0 < c
get-Below c [] ys a h k = absurd (omega arith)
get-Below c (x ∷ xs) ys zero h k = h.0
get-Below c (x ∷ xs) ys (suc a) h k = get-Below c xs ys a h.1 (omega arith)

get_behind :
    (c : ℕ) (xs ys : List Bar) (a : ℕ)
    → All (λ b. (c ≤ b.bucket) × (b.bucket < 2 ^ 31)) ys
    → length xs ≤ a
    → a < length xs + length ys
    → (c ≤ get_or (buckets_of (xs ++ ys)) a 0) × (get_or (buckets_of (xs ++ ys)) a 0 < 2 ^ 31)
get_behind c [] [] a h lo hi = absurd (omega arith)
get_behind c [] (y ∷ ys) zero h lo hi = h.0
get_behind c [] (y ∷ ys) (suc a) h lo hi = get_behind c [] ys a h.1 (omega arith) (omega arith)
get_behind c (x ∷ xs) ys zero h lo hi = absurd (omega arith)
get_behind c (x ∷ xs) ys (suc a) h lo hi = get_behind c xs ys a h (omega arith) (omega arith)

not_gt : (c b : ℕ) → c ≤ b → b < 2 ^ 31 → sign32 (sub32 c b) ≢ Ordering.gt
unfolding sign32 sub32
not_gt c b h r e = ground arith

-- `sort.Find` stops at the first bucket that is not before `c`.
find_first :
    (c : ℕ) (xs ys : List Bar)
    → c < 2 ^ 31
    → Below c xs
    → All (λ b. (c ≤ b.bucket) × (b.bucket < 2 ^ 31)) ys
    → find (length (xs ++ ys)) (first_cmp (buckets_of (xs ++ ys)) c) ≡ (
      length xs,
      ltb (length xs) (length (xs ++ ys))
          && is_eq (first_cmp (buckets_of (xs ++ ys)) c (length xs)),
    )
find_first c xs ys hc below behind =
    find_lem (length (xs ++ ys)) (length xs) (first_cmp (buckets_of (xs ++ ys)) c)
      (omega (arith, length-append xs ys)) (λ a h. sign32_gt c _ hc (get-Below c xs ys a below h))
      λ a lo hi.
        let (above, range) = get_behind c xs ys a behind lo (omega (arith, length-append xs ys)) in
        not_gt c _ above range

get_seam :
    (xs : List Bar) (x : Bar) (ys : List Bar)
    → get_or (buckets_of (xs ++ x ∷ ys)) (length xs) 0 ≡ x.bucket
get_seam [] x ys = refl
get_seam (z ∷ xs) x ys = get_seam xs x ys

Above-range :
    (c : ℕ) (ys : List Bar)
    → Above c ys
    → InRange ys
    → All (λ b. (c ≤ b.bucket) × (b.bucket < 2 ^ 31)) ys
Above-range c [] h r = tt
Above-range c (y ∷ ys) h r = ((omega arith, r.0.0), Above-range c ys h.1 r.1)

buckets_of-replace :
    (xs : List Bar) (x y : Bar) (ys : List Bar)
    → x.bucket ≡ y.bucket
    → buckets_of (xs ++ x ∷ ys) ≡ buckets_of (xs ++ y ∷ ys)
buckets_of-replace [] x y ys e = ap (λ b. b ∷ buckets_of ys) e
buckets_of-replace (z ∷ xs) x y ys e = ap (◌∷◌ z.bucket) (buckets_of-replace xs x y ys e)

-- One bar of `from` that `to` has too.
pub bump_one_lem :
    (to from : HdrHistogram) (xs : List Bar) (x f : Bar) (ys : List Bar)
    → Columns to (xs ++ x ∷ ys)
    → Columns from (f ∷ [])
    → bump_one to from (length xs) ≡ some (with_bars to (xs ++ combine x f ∷ ys))
unfolding bump_one
bump_one_lem to from xs x f ys ct cf = rw (
  ct.counts,
  read-seam (λ b. b.count) xs x ys,
  cf.counts,
  ◌>>=◌,
  write-seam (λ b. b.count) xs x (combine x f) ys,
  ct.buckets,
  buckets_of-replace xs x (combine x f) ys refl,
)

pub find_missing :
    (c : ℕ) (xs ys : List Bar)
    → c < 2 ^ 31
    → Below c xs
    → Above c ys
    → InRange ys
    → find (length (xs ++ ys)) (first_cmp (buckets_of (xs ++ ys)) c) ≡ (length xs, false)
find_missing c xs [] hc below above r =
    find_first c xs [] hc below (Above-range c [] above r) ∙ ground (arith, length-append xs [])
find_missing c xs (y ∷ ys) hc below above r =
    find_first c xs (y ∷ ys) hc below (Above-range c (y ∷ ys) above r)
    ∙ ground (arith, get_seam xs y ys, sign32_lt c y.bucket r.0.0 above.0)

pub find_found :
    (c : ℕ) (xs : List Bar) (x : Bar) (ys : List Bar)
    → c < 2 ^ 31
    → Below c xs
    → x.bucket ≡ c
    → Above c ys
    → InRange ys
    → find (length (xs ++ x ∷ ys)) (first_cmp (buckets_of (xs ++ x ∷ ys)) c) ≡ (length xs, true)
find_found c xs x ys hc below e above r =
    find_first c xs (x ∷ ys) hc below ((omega arith, omega arith), Above-range c ys above r)
    ∙ ground (arith, get_seam xs x ys, sign32_eq c x.bucket hc (sym e), length-append xs (x ∷ ys))
