-- ===== src/Bars.antt =====
-- The bars of a sparse histogram, `bar` of aggregators/internal/hdrhistogram/hdrhistogram.go, and
-- what a list of bars stands for: a strictly ascending list of buckets, each with its count.
-- `merge` is the reference that Merger/Histogram and Hdr/Counts are compared with.
pub mod Merge
pub mod Snoc
pub mod Place
use Prim.Native.Nat.{compare, Ordering}
use apm_aggregation.Base.{ℕ, suc, ◌+◌, ◌≤◌, ◌<◌, ◌^◌, ◌≡◌, refl, List, [], ◌∷◌, ◌++◌, arith}
use apm_aggregation.Base.Tests.{◌==◌, if◌then◌else◌}
use apm_aggregation.Base.Lists.{All}
use apm_aggregation.Base.Words.{add64}

-- `bucket` is an int32 and `count` an int64, as bit patterns.
pub record Bar : Type 0 where
  pub bucket : ℕ
  pub count : ℕ

-- Strictly ascending, from bucket `n` on.
abbrev pub IsSortedFrom : ℕ → List Bar → Type 0
IsSortedFrom n [] = Unit {0}
IsSortedFrom n (x ∷ xs) = (n ≤ x.bucket) × IsSortedFrom (suc x.bucket) xs

abbrev pub Below : ℕ → List Bar → Type 0
Below c = All (λ b. b.bucket < c)

-- The buckets are valid indices of the counts array, and the counts are int64.
abbrev pub InRange : List Bar → Type 0
InRange = All (λ b. (b.bucket < 2 ^ 31) × (b.count < 2 ^ 64))

-- The count of a bucket, over all the bars that have it, as int64 sums are.
unfoldable pub count_at : ℕ → List Bar → ℕ
count_at q [] = 0
count_at q (x ∷ xs) = add64 (if x.bucket == q then x.count else 0) (count_at q xs)

-- The counts of all bars together.
unfoldable pub total : List Bar → ℕ
total [] = 0
total (x ∷ xs) = add64 x.count (total xs)

abbrev pub combine : Bar → Bar → Bar
combine x y = record x { count = add64 x.count y.count }

unfoldable pub merge : List Bar → List Bar → List Bar
merge [] ys = ys
merge (x ∷ xs) [] = x ∷ xs
merge (x ∷ xs) (y ∷ ys) = elim (compare x.bucket y.bucket) [
  | Ordering.lt ↦ x ∷ merge xs (y ∷ ys)
  | Ordering.eq ↦ combine x y ∷ merge xs ys
  | Ordering.gt ↦ y ∷ merge (x ∷ xs) ys
]

pub IsSortedFrom-mono : {m n : ℕ} (xs : List Bar) → m ≤ n → IsSortedFrom n xs → IsSortedFrom m xs
IsSortedFrom-mono [] h s = tt
IsSortedFrom-mono (x ∷ xs) h s = (omega arith, s.1)

pub InRange-right : (xs ys : List Bar) → InRange (xs ++ ys) → InRange ys
InRange-right [] ys h = h
InRange-right (x ∷ xs) ys h = InRange-right xs ys h.1
