-- ===== src/Bars/Place.antt =====
-- Where one bucket stands in a sorted list of bars, and the merge of a single bar there.
use apm_aggregation.Base.{ℕ, suc, ◌<◌, ◌≡◌, refl, ap, ◌∙◌, inl, inr, List, [], ◌∷◌, ◌++◌, arith}
use apm_aggregation.Base.Tests.{compare_cases}
use apm_aggregation.Base.Lists.{All}
use apm_aggregation.Bars.{Bar, IsSortedFrom, Below, combine, merge}
use apm_aggregation.Bars.Snoc.{merge-Below, merge-nil}

abbrev pub Above : ℕ → List Bar → Type 0
Above c = All (λ b. c < b.bucket)

abbrev pub bar : ℕ → ℕ → Bar
bar b v = record { bucket = b; count = v }

-- Where a bucket stands in a sorted list of bars.
pub data Place (b : ℕ) (s : List Bar) : Type 0 where
  missing : (xs ys : List Bar) → s ≡ xs ++ ys → Below b xs → Above b ys → Place b s
  found :
      (xs : List Bar) (x : Bar) (ys : List Bar)
      → s ≡ xs ++ x ∷ ys
      → Below b xs
      → x.bucket ≡ b
      → Above b ys
      → Place b s

IsSortedFrom-Above : {b n : ℕ} (s : List Bar) → b < n → IsSortedFrom n s → Above b s
IsSortedFrom-Above [] h t = tt
IsSortedFrom-Above (x ∷ s) h t = (omega arith, IsSortedFrom-Above s (omega arith) t.1)

Place-cons : {b : ℕ} {s : List Bar} (x : Bar) → x.bucket < b → Place b s → Place b (x ∷ s)
Place-cons x h (missing xs ys e p q) = missing (x ∷ xs) ys (ap (◌∷◌ x) e) (h, p) q
Place-cons x h (found xs y ys e p m q) = found (x ∷ xs) y ys (ap (◌∷◌ x) e) (h, p) m q

pub place : (b n : ℕ) (s : List Bar) → IsSortedFrom n s → Place b s
place b n [] t = missing [] [] refl tt tt
place b n (x ∷ s) t = elim (compare_cases x.bucket b) [
  | inl before ↦ Place-cons x before (place b (suc x.bucket) s t.1)
  | inr (inl same) ↦ found [] x s refl tt same (IsSortedFrom-Above s (omega arith) t.1)
  | inr (inr behind) ↦ missing [] (x ∷ s) refl tt (behind, IsSortedFrom-Above s (omega arith) t.1)
]

pub merge_missing :
    (xs ys : List Bar) (b v : ℕ)
    → Below b xs
    → Above b ys
    → merge (xs ++ ys) (bar b v ∷ []) ≡ xs ++ bar b v ∷ ys
unfolding merge
merge_missing xs [] b v p q = merge-Below xs [] (bar b v) [] p
merge_missing xs (y ∷ ys) b v p q =
    merge-Below xs (y ∷ ys) (bar b v) [] p ∙ ap (◌++◌ xs) (ground arith)

pub merge_found :
    (xs : List Bar) (x : Bar) (ys : List Bar) (b v : ℕ)
    → Below b xs
    → x.bucket ≡ b
    → merge (xs ++ x ∷ ys) (bar b v ∷ []) ≡ xs ++ combine x (bar b v) ∷ ys
unfolding merge
merge_found xs x ys b v p e =
    merge-Below xs (x ∷ ys) (bar b v) [] p ∙ ap (◌++◌ xs) (ground (arith, merge-nil ys))
