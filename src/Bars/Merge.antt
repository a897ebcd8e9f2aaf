-- ===== src/Bars/Merge.antt =====
-- The reference merge: its order, its range and its counts.
use apm_aggregation.Base.{ℕ, suc, ◌+◌, ◌≤◌, ◌<◌, ◌^◌, ◌≡◌, sym, List, [], ◌∷◌, arith}
use apm_aggregation.Base.Lists.{length}
use apm_aggregation.Base.Words.{add64, add64-lt, add64-zero, zero-add64}
use apm_aggregation.Bars.{Bar, IsSortedFrom, InRange, total, count_at, merge}

pub merge-IsSortedFrom :
    (n : ℕ) (xs ys : List Bar)
    → IsSortedFrom n xs
    → IsSortedFrom n ys
    → IsSortedFrom n (merge xs ys)
unfolding merge
merge-IsSortedFrom n [] ys s t = t
merge-IsSortedFrom n (x ∷ xs) [] s t = s
merge-IsSortedFrom n (x ∷ xs) (y ∷ ys) s t = ground (
  arith,
  merge-IsSortedFrom (suc x.bucket) xs (y ∷ ys) s.1,
  merge-IsSortedFrom (suc x.bucket) xs ys s.1,
  merge-IsSortedFrom (suc y.bucket) (x ∷ xs) ys,
)

pub count_at-lt : (q : ℕ) (xs : List Bar) → count_at q xs < 2 ^ 64
unfolding count_at
count_at-lt q [] = omega arith
count_at-lt q (x ∷ xs) = add64-lt _ _

pub add64_left_comm : (a b c : ℕ) → add64 a (add64 b c) ≡ add64 b (add64 a c)
unfolding add64
add64_left_comm a b c = omega arith

count_at-step :
    (a b c d e : ℕ) → c ≡ add64 d e → add64 (add64 a b) c ≡ add64 (add64 a d) (add64 b e)
unfolding add64
count_at-step a b c d e h = omega arith

pub total-lt : (xs : List Bar) → total xs < 2 ^ 64
unfolding total
total-lt [] = omega arith
total-lt (x ∷ xs) = add64-lt _ _

pub count_at-merge :
    (q : ℕ) (xs ys : List Bar) → count_at q (merge xs ys) ≡ add64 (count_at q xs) (count_at q ys)
unfolding count_at merge add64
count_at-merge q [] ys = sym (zero-add64 _ (count_at-lt q ys))
count_at-merge q (x ∷ xs) [] = sym (add64-zero _ (count_at-lt q (x ∷ xs)))
count_at-merge q (x ∷ xs) (y ∷ ys) =
    ground
      (arith, count_at-merge q xs (y ∷ ys), count_at-merge q xs ys, count_at-merge q (x ∷ xs) ys)

pub merge-InRange : (xs ys : List Bar) → InRange xs → InRange ys → InRange (merge xs ys)
unfolding merge
merge-InRange [] ys r q = q
merge-InRange (x ∷ xs) [] r q = r
merge-InRange (x ∷ xs) (y ∷ ys) r q = ground (
  arith,
  merge-InRange xs (y ∷ ys) r.1 q,
  merge-InRange xs ys r.1 q.1,
  merge-InRange (x ∷ xs) ys r q.1,
  add64-lt x.count y.count,
)

-- Nothing is lost: the totals of all bars add up too.
pub total-merge : (xs ys : List Bar) → total (merge xs ys) ≡ add64 (total xs) (total ys)
unfolding total merge add64
total-merge [] ys = omega (arith, total-lt ys)
total-merge (x ∷ xs) [] = omega (arith, total-lt (x ∷ xs))
total-merge (x ∷ xs) (y ∷ ys) =
    ground (arith, total-merge xs (y ∷ ys), total-merge xs ys, total-merge (x ∷ xs) ys)

pub length-merge-le : (xs ys : List Bar) → length (merge xs ys) ≤ length xs + length ys
unfolding merge
length-merge-le [] ys = omega arith
length-merge-le (x ∷ xs) [] = omega arith
length-merge-le (x ∷ xs) (y ∷ ys) =
    ground (arith, length-merge-le xs (y ∷ ys), length-merge-le xs ys, length-merge-le (x ∷ xs) ys)
