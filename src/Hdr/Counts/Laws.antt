-- ===== src/Hdr/Counts/Laws.antt =====
-- What `Add`, `Get` and `ForEach` of the hybrid counts do to the bars that they stand for.
use Prim.Native.Nat.{Ordering}
use apm_aggregation.Base.{ℕ, ◌<◌, ◌^◌, ◌≡◌, sym, ap, subst, ◌∙◌, some, List, [], ◌∷◌, ◌++◌, arith}
use apm_aggregation.Base.Lists.{length, All, get_elem?-seam, set?-seam}
use apm_aggregation.Base.Search.{Slices}
use apm_aggregation.Bars.{Bar, IsSortedFrom, Below, InRange, InRange-right, combine, merge}
use apm_aggregation.Bars.Place.{Above, bar, missing, found, place, merge_missing, merge_found}
use apm_aggregation.Hdr.Counts.{compare_bar, key_bar, bump, add_slice}

Below-compare :
    (b : ℕ) (xs : List Bar)
    → b < 2 ^ 31
    → Below b xs
    → All (λ a. compare_bar a (key_bar b) ≡ Ordering.lt) xs
unfolding compare_bar
Below-compare b [] h p = tt
Below-compare b (x ∷ xs) h p = (ground arith, Below-compare b xs h p.1)

Above-compare :
    (b : ℕ) (xs : List Bar)
    → b < 2 ^ 31
    → InRange xs
    → Above b xs
    → All (λ a. compare_bar a (key_bar b) ≡ Ordering.gt) xs
unfolding compare_bar
Above-compare b [] h r p = tt
Above-compare b (x ∷ xs) h r p = (ground arith, Above-compare b xs h r.1 p.1)

compare_bar_same : (x : Bar) (b : ℕ) → x.bucket ≡ b → compare_bar x (key_bar b) ≡ Ordering.eq
unfolding compare_bar
compare_bar_same x b e = ground arith

bump-seam :
    (xs : List Bar) (x : Bar) (ys : List Bar) (v : ℕ)
    → bump (xs ++ x ∷ ys) (length xs) v ≡ some (xs ++ combine x (bar 0 v) ∷ ys)
unfolding bump
bump-seam xs x ys v = rw (get_elem?-seam xs x ys, bump) (set?-seam xs x ys _)

module _ (lib : Slices Bar) where
  -- On a sorted slice `Add` merges one bar in.
  pub add_slice_lem :
      (s : List Bar) (b v : ℕ)
      → IsSortedFrom 0 s
      → InRange s
      → b < 2 ^ 31
      → add_slice lib s b v ≡ some (merge s (bar b v ∷ []))
  unfolding add_slice
  add_slice_lem s b v t r h = elim (place b 0 s t) [
    | missing xs ys e p q ↦ rw e (
        rw
          (
            lib.binary_search_func_missing xs ys (key_bar b) compare_bar (Below-compare b xs h p)
                (Above-compare b ys h (InRange-right xs ys (subst InRange e r)) q),
            add_slice,
            lib.insert_lem xs ys (bar b v),
          )
          (ap some (sym (merge_missing xs ys b v p q))))
    | found xs x ys e p m q ↦ rw e (
        rw
          (
            lib.binary_search_func_found xs x ys (key_bar b) compare_bar (Below-compare b xs h p)
                (compare_bar_same x b m)
                (Above-compare b ys h (InRange-right xs (x ∷ ys) (subst InRange e r)).1 q),
            add_slice,
          )
          (bump-seam xs x ys v ∙ ap some (sym (merge_found xs x ys b v p m))))
  ]
