-- ===== src/Merger/Histogram.antt =====
-- `mergeHistogram` of aggregators/merger.go: the in-place merge of two histograms, from the end.
-- `none` is a panic. Loop variables that the source lets run down to -1 are kept one higher: `n` is
-- toIdx + 1, `m` is fromIdx + 1. What the backing arrays hold behind their length is arbitrary:
-- `stale` gives it, by array and index.
pub mod Fill
pub mod Loop
pub mod Rounds
pub mod Correct
pub mod Slices
pub mod Start
pub mod Meaning
use Prim.Native.Nat.{Ordering}
use apm_aggregation.Base.{
  ℕ, zero, suc, ◌+◌, ◌-◌, Bool, true, false, ◌&&◌, ◌||◌, Option, none, some, List, [], ◌∷◌, ◌++◌,
}
use apm_aggregation.Base.Tests.{◌==◌, ltb, leb, if◌then◌else◌}
use apm_aggregation.Base.Lists.{length, get_elem?, get_or, set?, take, drop}
use apm_aggregation.Base.Words.{add64, sub32, negative32}
use apm_aggregation.Base.Search.{find}
use apm_aggregation.Base.Panic.{◌>>=◌}
use apm_aggregation.Pb.{HdrHistogram}

-- The sign of an int32.
unfoldable pub sign32 : ℕ → Ordering
sign32 v = if v == 0 then Ordering.eq else (if negative32 v then Ordering.lt else Ordering.gt)

-- The loop that takes one off for each common bucket. The two indices are the suffixes still unread.
unfoldable pub shrink : ℕ → List ℕ → List ℕ → ℕ
shrink len [] fs = len
shrink len (t ∷ ts) [] = len
shrink len (t ∷ ts) (f ∷ fs) = elim (sign32 (sub32 t f)) [
  | Ordering.eq ↦ shrink (len - 1) ts fs
  | Ordering.lt ↦ shrink len ts (f ∷ fs)
  | Ordering.gt ↦ shrink len (t ∷ ts) fs
]

-- `copy(xs[start:stop], src[0:m])`.
unfoldable pub copy_range : List ℕ → ℕ → ℕ → List ℕ → ℕ → Option (List ℕ)
copy_range xs start stop src m =
    let part = take (stop - start) (take m src) in
    if leb start stop && (leb stop (length xs) && leb m (length src))
    then some (take start xs ++ (part ++ drop (start + length part) xs))
    else none

-- The two slices that are being written, and the two counters.
pub record Cursor : Type 0 where
  pub n : ℕ
  pub m : ℕ
  pub buckets : List ℕ
  pub counts : List ℕ

-- `to.Counts[idx] = count; to.Buckets[idx] = bucket`.
unfoldable pub write : Cursor → ℕ → ℕ → ℕ → Option Cursor
write st idx bucket count = do
  cs ← set? st.counts idx count
  bs ← set? st.buckets idx bucket
  some (record st { buckets = bs; counts = cs })

-- The switch of the loop's body.
unfoldable pub fill_step : HdrHistogram → ℕ → Cursor → Option Cursor
unfolding write
fill_step from idx st = do
  t ← get_elem? st.buckets (st.n - 1)
  f ← get_elem? from.buckets (st.m - 1)
  elim (sign32 (sub32 t f)) [
    | Ordering.eq ↦ do
      tc ← get_elem? st.counts (st.n - 1)
      fc ← get_elem? from.counts (st.m - 1)
      write (record st { n = st.n - 1; m = st.m - 1 }) idx t (add64 tc fc)
    | Ordering.gt ↦ do
      tc ← get_elem? st.counts (st.n - 1)
      write (record st { n = st.n - 1 }) idx t tc
    | Ordering.lt ↦ do
      fc ← get_elem? from.counts (st.m - 1)
      write (record st { m = st.m - 1 }) idx f fc
  ]

-- The two copies, once all of `to` that is left lies before `from`.
unfoldable pub copy_rest : ℕ → HdrHistogram → ℕ → Cursor → Option (List ℕ × List ℕ)
unfolding copy_range
copy_rest start from stop st = do
  cs ← copy_range st.counts start stop from.counts st.m
  bs ← copy_range st.buckets start stop from.buckets st.m
  some (bs, cs)

-- `for idx := len(to.Buckets) - 1; idx >= 0; idx--`, with `idx + 1` rounds left.
unfoldable pub fill : ℕ → HdrHistogram → ℕ → Cursor → Option (List ℕ × List ℕ)
fill start from zero st = some (st.buckets, st.counts)
fill start from (suc idx) st =
    let step = fill_step from idx st >>= fill start from idx in
    let copied = copy_rest start from (suc idx) st in
    if st.m == 0 then some (st.buckets, st.counts) else (if leb st.n start then copied else step)

fresh : (ℕ → ℕ) → ℕ → ℕ → List ℕ
fresh stale i zero = []
fresh stale i (suc k) = stale i ∷ fresh stale (suc i) k

-- `slices.Grow(xs, len - len(xs))[:len]`, which panics if `len` is the smaller.
unfoldable pub grow_to : (ℕ → ℕ) → List ℕ → ℕ → Option (List ℕ)
unfolding fresh
grow_to stale xs len =
    if ltb len (length xs) then none else some (xs ++ fresh stale (length xs) (len - length xs))

-- The comparison handed to `sort.Find`; it is called below `len(to.Buckets)` only.
abbrev pub first_cmp : List ℕ → ℕ → ℕ → Ordering
first_cmp to f i = sign32 (sub32 f (get_or to i 0))

-- `to.Counts[startToIdx] += from.Counts[0]`.
unfoldable pub bump_one : HdrHistogram → HdrHistogram → ℕ → Option HdrHistogram
bump_one to from at = do
  tc ← get_elem? to.counts at
  fc ← get_elem? from.counts 0
  cs ← set? to.counts at (add64 tc fc)
  some (record to { counts = cs })

unfoldable pub merge_slices :
    (ℕ → ℕ) → (ℕ → ℕ) → HdrHistogram → HdrHistogram → ℕ → Option HdrHistogram
unfolding shrink grow_to fill
merge_slices stale_b stale_c to from start = do
  let t = length to.buckets
  let f = length from.buckets
  let len = shrink (t + f) (drop start to.buckets) from.buckets
  bs ← grow_to stale_b to.buckets len
  cs ← grow_to stale_c to.counts len
  (bs', cs') ← fill start from len (record { n = t; m = f; buckets = bs; counts = cs })
  some (record to { buckets = bs'; counts = cs' })

merge_into : (ℕ → ℕ) → (ℕ → ℕ) → HdrHistogram → HdrHistogram → List ℕ → List ℕ → Option HdrHistogram
unfolding merge_slices bump_one
merge_into stale_b stale_c to from ts [] = some to
merge_into stale_b stale_c to from [] (f ∷ fs) =
    some (record to { buckets = to.buckets ++ from.buckets; counts = to.counts ++ from.counts })
merge_into stale_b stale_c to from (t ∷ ts) (f ∷ fs) =
    let (start, found) = find (length to.buckets) (first_cmp to.buckets f) in
    if found && length from.buckets == 1
    then bump_one to from start
    else merge_slices stale_b stale_c to from start

unfoldable pub merge_histogram :
    (ℕ → ℕ) → (ℕ → ℕ) → HdrHistogram → HdrHistogram → Option HdrHistogram
unfolding merge_into
merge_histogram stale_b stale_c to from = merge_into stale_b stale_c to from to.buckets from.buckets
