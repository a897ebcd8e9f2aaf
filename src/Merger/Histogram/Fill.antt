-- ===== src/Merger/Histogram/Fill.antt =====
-- The body of the loop of `mergeHistogram`: each round writes the last bar of the reference merge.
-- The two parallel slices are the columns of one list of bars.
use Prim.Native.Nat.{Ordering}
use apm_aggregation.Base.{ℕ, suc, ◌-◌, ◌<◌, ◌^◌, ◌≡◌, refl, some, List, [], ◌∷◌, ◌++◌, map, arith}
use apm_aggregation.Base.Lists.{length, get_elem?, set?}
use apm_aggregation.Base.Words.{sub32}
use apm_aggregation.Bars.{Bar, combine}
use apm_aggregation.Base.Panic.{◌>>=◌}
use apm_aggregation.Pb.{HdrHistogram}
use apm_aggregation.Merger.Histogram.{Cursor, sign32, write, fill_step}

abbrev pub buckets_of : List Bar → List ℕ
buckets_of = map (λ b. b.bucket)

abbrev pub counts_of : List Bar → List ℕ
counts_of = map (λ b. b.count)

pub record Columns (h : HdrHistogram) (bs : List Bar) : Type 0 where
  pub buckets : h.buckets ≡ buckets_of bs
  pub counts : h.counts ≡ counts_of bs

abbrev pub cursor : ℕ → ℕ → List Bar → Cursor
cursor n m bs = record { n = n; m = m; buckets = buckets_of bs; counts = counts_of bs }

pub read-seam :
    (col : Bar → ℕ) (xs : List Bar) (x : Bar) (ys : List Bar)
    → get_elem? (map col (xs ++ x ∷ ys)) (length xs) ≡ some (col x)
read-seam col [] x ys = refl
read-seam col (z ∷ xs) x ys = read-seam col xs x ys

pub write-seam :
    (col : Bar → ℕ) (xs : List Bar) (x y : Bar) (ys : List Bar)
    → set? (map col (xs ++ x ∷ ys)) (length xs) (col y) ≡ some (map col (xs ++ y ∷ ys))
write-seam col [] x y ys = refl
write-seam col (z ∷ xs) x y ys = ground (arith, write-seam col xs x y ys)

pub suc-sub_one : (n : ℕ) → suc n - 1 ≡ n
suc-sub_one n = omega arith

pub sign32_eq : (a b : ℕ) → a < 2 ^ 31 → a ≡ b → sign32 (sub32 a b) ≡ Ordering.eq
unfolding sub32 sign32
sign32_eq a b h e = ground arith

pub sign32_lt : (a b : ℕ) → b < 2 ^ 31 → a < b → sign32 (sub32 a b) ≡ Ordering.lt
unfolding sub32 sign32
sign32_lt a b h e = ground arith

pub sign32_gt : (a b : ℕ) → a < 2 ^ 31 → b < a → sign32 (sub32 a b) ≡ Ordering.gt
unfolding sub32 sign32
sign32_gt a b h e = ground arith

write-cursor :
    (n m : ℕ) (xs : List Bar) (x y : Bar) (ys : List Bar)
    → write (cursor n m (xs ++ x ∷ ys)) (length xs) y.bucket y.count
      ≡ some (cursor n m (xs ++ y ∷ ys))
unfolding write
write-cursor n m xs x y ys =
    rw (write-seam (λ b. b.count) xs x y ys, write-seam (λ b. b.bucket) xs x y ys)

-- `xs` and then `x` is what is left of `to`, `fs` and then `f` what is left of `from`; the slot to
-- be written holds `g`.
module _ (from : HdrHistogram) (fs : List Bar) (f : Bar) (rest : List Bar)
    (cols : Columns from (fs ++ f ∷ rest)) (hf : f.bucket < 2 ^ 31) (xs : List Bar) (x : Bar)
    (hx : x.bucket < 2 ^ 31) (ys done_before : List Bar) (g : Bar) (done : List Bar)
    (same : xs ++ x ∷ ys ≡ done_before ++ g ∷ done) where
  read_to :
      (col : Bar → ℕ) → get_elem? (map col (done_before ++ g ∷ done)) (length xs) ≡ some (col x)
  read_to col = rw (← same) (read-seam col xs x ys)

  read_from_buckets : get_elem? from.buckets (length fs) ≡ some f.bucket
  read_from_buckets = rw cols.buckets (read-seam (λ b. b.bucket) fs f rest)

  read_from_counts : get_elem? from.counts (length fs) ≡ some f.count
  read_from_counts = rw cols.counts (read-seam (λ b. b.count) fs f rest)

  pub fill_step_both :
      x.bucket ≡ f.bucket
      → fill_step from
          (length done_before)
          (cursor (suc (length xs)) (suc (length fs)) (done_before ++ g ∷ done))
        ≡ some (cursor (length xs) (length fs) (done_before ++ combine x f ∷ done))
  unfolding fill_step
  fill_step_both e =
      rw
        (
          suc-sub_one (length xs),
          suc-sub_one (length fs),
          read_to (λ b. b.bucket),
          read_from_buckets,
          ◌>>=◌,
          sign32_eq x.bucket f.bucket hx e,
        )
        (rw
          (
            suc-sub_one (length xs),
            suc-sub_one (length fs),
            read_to (λ b. b.count),
            read_from_counts,
          )
          (write-cursor (length xs) (length fs) done_before g (combine x f) done))

  pub fill_step_to :
      f.bucket < x.bucket
      → fill_step from
          (length done_before)
          (cursor (suc (length xs)) (suc (length fs)) (done_before ++ g ∷ done))
        ≡ some (cursor (length xs) (suc (length fs)) (done_before ++ x ∷ done))
  unfolding fill_step
  fill_step_to e =
      rw
        (
          suc-sub_one (length xs),
          suc-sub_one (length fs),
          read_to (λ b. b.bucket),
          read_from_buckets,
          ◌>>=◌,
          sign32_gt x.bucket f.bucket hx e,
        )
        (rw (suc-sub_one (length xs), read_to (λ b. b.count))
          (write-cursor (length xs) (suc (length fs)) done_before g x done))

  pub fill_step_from :
      x.bucket < f.bucket
      → fill_step from
          (length done_before)
          (cursor (suc (length xs)) (suc (length fs)) (done_before ++ g ∷ done))
        ≡ some (cursor (suc (length xs)) (length fs) (done_before ++ f ∷ done))
  unfolding fill_step
  fill_step_from e =
      rw
        (
          suc-sub_one (length xs),
          suc-sub_one (length fs),
          read_to (λ b. b.bucket),
          read_from_buckets,
          ◌>>=◌,
          sign32_lt x.bucket f.bucket hf e,
        )
        (rw (suc-sub_one (length fs), read_from_counts)
          (write-cursor (suc (length xs)) (length fs) done_before g f done))
