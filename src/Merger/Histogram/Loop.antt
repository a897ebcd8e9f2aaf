-- ===== src/Merger/Histogram/Loop.antt =====
-- The loop of `mergeHistogram` fills the slices, from the end, with the reference merge.
use mathlib.Core.List.{append_assoc, append-nil, map-append}
use apm_aggregation.Base.{
  ℕ, zero, suc, ◌+◌, ◌-◌, ◌≤◌, ◌<◌, ◌^◌, ◌≡◌, refl, sym, ap, subst, ◌∙◌, some, List, [], ◌∷◌, ◌++◌,
  map, arith,
}
use apm_aggregation.Base.Lists.{length, take, drop, length-append, length-map, take_all}
use apm_aggregation.Bars.{Bar, Below, InRange, IsSortedFrom, merge}
use apm_aggregation.Bars.Snoc.{merge-nil, merge-Below}
use apm_aggregation.Pb.{HdrHistogram}
use apm_aggregation.Merger.Histogram.{Cursor, copy_range, copy_rest, fill_step, fill}
use apm_aggregation.Merger.Histogram.Fill.{buckets_of, counts_of, Columns, cursor}

module _ {ℓ} {A : Type ℓ} where
  pub take-length_append : (xs ys : List A) → take (length xs) (xs ++ ys) ≡ xs
  take-length_append [] ys = refl
  take-length_append (x ∷ xs) ys = ap (◌∷◌ x) (take-length_append xs ys)

  pub drop-length_append : (xs ys : List A) → drop (length xs) (xs ++ ys) ≡ ys
  drop-length_append [] ys = refl
  drop-length_append (x ∷ xs) ys = drop-length_append xs ys

  drop-length_append_two :
      (xs ys zs : List A) (n : ℕ) → n ≡ length xs + length ys → drop n (xs ++ (ys ++ zs)) ≡ zs
  drop-length_append_two xs ys zs n h =
      rw (h ∙ sym (length-append xs ys), ← append_assoc xs ys zs) (drop-length_append (xs ++ ys) zs)

  pub take-append_le : (n : ℕ) (xs ys : List A) → n ≤ length xs → take n (xs ++ ys) ≡ take n xs
  take-append_le zero xs ys h = refl
  take-append_le (suc n) [] ys h = absurd (omega arith)
  take-append_le (suc n) (x ∷ xs) ys h = ap (◌∷◌ x) (take-append_le n xs ys (omega arith))

  -- A list from its end.
  pub data Ends (xs : List A) : Type ℓ where
    nothing : xs ≡ [] → Ends xs
    last : (ys : List A) (y : A) → xs ≡ ys ++ y ∷ [] → length xs ≡ suc (length ys) → Ends xs

  pub Ends-cons : (x : A) (xs : List A) → Ends xs → Ends (x ∷ xs)
  Ends-cons x xs (nothing e) = last [] x (ap (◌∷◌ x) e) (ground (arith, ap length e))
  Ends-cons x xs (last ys y e n) = last (x ∷ ys) y (ap (◌∷◌ x) e) (omega arith)

  pub ends : (xs : List A) → Ends xs
  ends [] = nothing refl
  ends (x ∷ xs) = Ends-cons x xs (ends xs)

copy_range_lem :
    (xs gs ss fs rs : List ℕ) (stop : ℕ)
    → length gs ≡ length fs
    → stop ≡ length xs + length fs
    → copy_range (xs ++ (gs ++ ss)) (length xs) stop (fs ++ rs) (length fs)
      ≡ some (xs ++ (fs ++ ss))
unfolding copy_range
copy_range_lem xs gs ss fs rs stop hg hs =
    rw
      (
        take-length_append fs rs,
        take-length_append xs (gs ++ ss),
        take_all (stop - length xs) fs (omega arith),
        drop-length_append_two xs gs ss (length xs + length fs) (omega arith),
      )
      (ground (arith, length-append xs (gs ++ ss), length-append gs ss, length-append fs rs))

copy_column :
    (col : Bar → ℕ) (xs gs ss fs rest : List Bar) (stop : ℕ)
    → length gs ≡ length fs
    → stop ≡ length xs + length fs
    → copy_range (map col (xs ++ (gs ++ ss))) (length xs) stop (map col (fs ++ rest)) (length fs)
      ≡ some (map col (xs ++ (fs ++ ss)))
copy_column col xs gs ss fs rest stop hg hs =
    rw
      (
        map-append col xs (gs ++ ss),
        map-append col gs ss,
        map-append col fs rest,
        map-append col xs (fs ++ ss),
        map-append col fs ss,
        ← length-map col xs,
        ← length-map col fs,
      )
      (copy_range_lem (map col xs) (map col gs) (map col ss) (map col fs) (map col rest) stop
        (omega (arith, length-map col gs, length-map col fs))
        (omega (arith, length-map col xs, length-map col fs)))

pub copy_rest_lem :
    (from : HdrHistogram) (xs gs ss fs rest : List Bar) (n stop : ℕ)
    → Columns from (fs ++ rest)
    → length gs ≡ length fs
    → stop ≡ length xs + length fs
    → copy_rest (length xs) from stop (cursor n (length fs) (xs ++ (gs ++ ss)))
      ≡ some (buckets_of (xs ++ (fs ++ ss)), counts_of (xs ++ (fs ++ ss)))
unfolding copy_rest
copy_rest_lem from xs gs ss fs rest n stop cols hg hs = rw (
  cols.counts,
  cols.buckets,
  copy_column (λ b. b.count) xs gs ss fs rest stop hg hs,
  copy_column (λ b. b.bucket) xs gs ss fs rest stop hg hs,
)

-- One round that takes a bar, and the rounds after it.
pub fill-suc :
    (start idx : ℕ) (from : HdrHistogram) (st st' : Cursor)
    → 0 < st.m
    → start < st.n
    → fill_step from idx st ≡ some st'
    → fill start from (suc idx) st ≡ fill start from idx st'
unfolding fill
fill-suc start idx from st st' hm hn e = ground (arith, e)

pub fill_stop :
    (start k : ℕ) (from : HdrHistogram) (st : Cursor)
    → st.m ≡ 0
    → fill start from k st ≡ some (st.buckets, st.counts)
unfolding fill
fill_stop start zero from st e = refl
fill_stop start (suc k) from st e = ground arith

pub fill_copy :
    (start idx : ℕ) (from : HdrHistogram) (st : Cursor)
    → 0 < st.m
    → st.n ≤ start
    → fill start from (suc idx) st ≡ copy_rest start from (suc idx) st
unfolding fill
fill_copy start idx from st hm hn = ground arith

-- Sorted lists seen from their end.
pub sorted_last :
    (n : ℕ) (xs : List Bar) (x : Bar)
    → IsSortedFrom n (xs ++ x ∷ [])
    → IsSortedFrom n xs × Below x.bucket xs × (n ≤ x.bucket)
sorted_last n [] x s = (tt, tt, s.0)
sorted_last n (y ∷ xs) x s =
    let (t, below, lo) = sorted_last (suc y.bucket) xs x s.1 in ((s.0, t), (lo, below), omega arith)

pub range_last :
    (xs : List Bar) (x : Bar) → InRange (xs ++ x ∷ []) → InRange xs × (x.bucket < 2 ^ 31)
range_last [] x r = (tt, r.0.0)
range_last (y ∷ xs) x r = let (t, h) = range_last xs x r.1 in ((r.0, t), h)

pub Below-mono : {a b : ℕ} (xs : List Bar) → a ≤ b → Below a xs → Below b xs
Below-mono [] h s = tt
Below-mono (x ∷ xs) h s = (omega arith, Below-mono xs h s.1)

pub merge_all-Below :
    (low : ℕ) (xs fs : List Bar) → Below low xs → IsSortedFrom low fs → merge xs fs ≡ xs ++ fs
unfolding merge
merge_all-Below low xs [] h s = merge-nil xs ∙ sym (append-nil xs)
merge_all-Below low xs (f ∷ fs) h s =
    subst (λ (zs : List Bar). merge zs (f ∷ fs) ≡ xs ++ f ∷ fs) (append-nil xs)
      (merge-Below xs [] f fs (Below-mono xs s.0 h))
