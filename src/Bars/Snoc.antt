-- ===== src/Bars/Snoc.antt =====
-- The reference merge seen from the end of its lists, where the program's in-place merge works,
-- and its behaviour where one list lies below the other.
use apm_aggregation.Base.{◌≡◌, refl, List, [], ◌∷◌, ◌++◌, arith}
use apm_aggregation.Bars.{Bar, Below, combine, merge}

pub merge-nil : (xs : List Bar) → merge xs [] ≡ xs
unfolding merge
merge-nil [] = refl
merge-nil (x ∷ xs) = refl

-- All of `xs` before the first of `ys`: nothing is interleaved.
pub merge-Below :
    (xs zs : List Bar) (y : Bar) (ys : List Bar)
    → Below y.bucket xs
    → merge (xs ++ zs) (y ∷ ys) ≡ xs ++ merge zs (y ∷ ys)
unfolding merge
merge-Below [] zs y ys h = refl
merge-Below (x ∷ xs) zs y ys h = ground (arith, merge-Below xs zs y ys h.1)

-- The last bar of the left list lies after all of the right list.
pub merge-snoc_left :
    (xs : List Bar) (x : Bar) (ys : List Bar)
    → Below x.bucket ys
    → merge (xs ++ x ∷ []) ys ≡ merge xs ys ++ x ∷ []
unfolding merge
merge-snoc_left [] x [] h = refl
merge-snoc_left [] x (y ∷ ys) h = ground (arith, merge-snoc_left [] x ys h.1)
merge-snoc_left (z ∷ xs) x [] h = refl
merge-snoc_left (z ∷ xs) x (y ∷ ys) h = ground (
  arith,
  merge-snoc_left xs x (y ∷ ys) h,
  merge-snoc_left xs x ys h.1,
  merge-snoc_left (z ∷ xs) x ys h.1,
)

-- The last bar of the right list lies after all of the left list.
pub merge-snoc_right :
    (xs ys : List Bar) (y : Bar)
    → Below y.bucket xs
    → merge xs (ys ++ y ∷ []) ≡ merge xs ys ++ y ∷ []
unfolding merge
merge-snoc_right [] ys y h = refl
merge-snoc_right (x ∷ xs) [] y h = ground (arith, merge-snoc_right xs [] y h.1, merge-nil xs)
merge-snoc_right (x ∷ xs) (z ∷ ys) y h = ground (
  arith,
  merge-snoc_right xs (z ∷ ys) y h.1,
  merge-snoc_right xs ys y h.1,
  merge-snoc_right (x ∷ xs) ys y h,
)

-- Both lists end in the same bucket.
pub merge-snoc_both :
    (xs : List Bar) (x : Bar) (ys : List Bar) (y : Bar)
    → x.bucket ≡ y.bucket
    → Below x.bucket xs
    → Below x.bucket ys
    → merge (xs ++ x ∷ []) (ys ++ y ∷ []) ≡ merge xs ys ++ combine x y ∷ []
unfolding merge
merge-snoc_both [] x [] y e h k = ground arith
merge-snoc_both [] x (z ∷ ys) y e h k = ground (arith, merge-snoc_both [] x ys y e h k.1)
merge-snoc_both (z ∷ xs) x [] y e h k =
    ground (arith, merge-snoc_both xs x [] y e h.1 k, merge-nil xs)
merge-snoc_both (z ∷ xs) x (w ∷ ys) y e h k = ground (
  arith,
  merge-snoc_both xs x (w ∷ ys) y e h.1 k,
  merge-snoc_both xs x ys y e h.1 k.1,
  merge-snoc_both (z ∷ xs) x ys y e h k.1,
)
