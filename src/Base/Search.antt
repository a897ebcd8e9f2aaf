-- ===== src/Base/Search.antt =====
-- Searching in sorted sequences. `find` is the standard library's `sort.Find`, its binary search
-- written out. `golang.org/x/exp/slices` is not part of the repository or of the standard library:
-- `Slices` takes the two functions that the code calls, with what their documentation says.
use Prim.Native.Nat.{Ordering}
use apm_aggregation.Base.{
  ℕ, zero, suc, ◌+◌, ◌-◌, ◌/◌, ◌≤◌, ◌<◌, ◌≡◌, refl, ap, ◌≢◌, Bool, true, false, ◌&&◌, List, [], ◌∷◌,
  ◌++◌, arith,
}
use apm_aggregation.Base.Tests.{ltb, if◌then◌else◌}
use apm_aggregation.Base.Lists.{length, All}

-- `cmp(h) > 0` and `cmp(i) == 0`.
abbrev is_gt : Ordering → Bool
is_gt Ordering.lt = false
is_gt Ordering.eq = false
is_gt Ordering.gt = true

abbrev pub is_eq : Ordering → Bool
is_eq Ordering.lt = false
is_eq Ordering.eq = true
is_eq Ordering.gt = false

-- `for i < j { h := (i+j)>>1; if cmp(h) > 0 { i = h + 1 } else { j = h } }`
search_loop : ℕ → (ℕ → Ordering) → ℕ → ℕ → ℕ
search_loop zero cmp i j = i
search_loop (suc fuel) cmp i j =
    let h = (i + j) / 2 in
    let upper = search_loop fuel cmp (h + 1) j in
    let lower = search_loop fuel cmp i h in
    let half = if is_gt (cmp h) then upper else lower in if ltb i j then half else i

unfoldable pub find : ℕ → (ℕ → Ordering) → ℕ × Bool
unfolding search_loop
find n cmp = let i = search_loop n cmp 0 n in (i, ltb i n && is_eq (cmp i))

search_loop_lem :
    (fuel : ℕ) (cmp : ℕ → Ordering) (k i j : ℕ)
    → j - i ≤ fuel
    → i ≤ k
    → k ≤ j
    → ((a : ℕ) → a < k → cmp a ≡ Ordering.gt)
    → ((a : ℕ) → k ≤ a → a < j → cmp a ≢ Ordering.gt)
    → search_loop fuel cmp i j ≡ k
unfolding search_loop
search_loop_lem zero cmp k i j f lo hi before from = omega arith
search_loop_lem (suc fuel) cmp k i j f lo hi before from =
    let h : ℕ = (i + j) / 2 in
    ground (
      arith,
      before h,
      from h,
      search_loop_lem fuel cmp k (h + 1) j,
      search_loop_lem fuel cmp k i h,
      λ (q : h < j) (a : ℕ) (p : k ≤ a) (r : a < h). from a p (omega arith),
    )

-- `find` returns the first index at which the comparison is no longer positive.
pub find_lem :
    (n k : ℕ) (cmp : ℕ → Ordering)
    → k ≤ n
    → ((a : ℕ) → a < k → cmp a ≡ Ordering.gt)
    → ((a : ℕ) → k ≤ a → a < n → cmp a ≢ Ordering.gt)
    → find n cmp ≡ (k, ltb k n && is_eq (cmp k))
unfolding find
find_lem n k cmp h before from =
    rw (search_loop_lem n cmp k 0 n (omega arith) (omega arith) h before from)

-- What `BinarySearchFunc` and `Insert` do, for a slice whose elements before the target compare
-- less with it and whose elements behind it compare greater.
pub record Slices (A : Type 0) : Type 0 where
  pub binary_search_func : List A → A → (A → A → Ordering) → ℕ × Bool
  pub insert : List A → ℕ → A → List A
  pub binary_search_func_missing :
      (xs ys : List A) (t : A) (cmp : A → A → Ordering)
      → All (λ a. cmp a t ≡ Ordering.lt) xs
      → All (λ a. cmp a t ≡ Ordering.gt) ys
      → binary_search_func (xs ++ ys) t cmp ≡ (length xs, false)
  pub binary_search_func_found :
      (xs : List A) (x : A) (ys : List A) (t : A) (cmp : A → A → Ordering)
      → All (λ a. cmp a t ≡ Ordering.lt) xs
      → cmp x t ≡ Ordering.eq
      → All (λ a. cmp a t ≡ Ordering.gt) ys
      → binary_search_func (xs ++ x ∷ ys) t cmp ≡ (length xs, true)
  pub insert_lem : (xs ys : List A) (v : A) → insert (xs ++ ys) (length xs) v ≡ xs ++ v ∷ ys

module _ {A : Type 0} where
  unfoldable pub scan : List A → A → (A → A → Ordering) → ℕ × Bool
  scan [] t cmp = (0, false)
  scan (x ∷ xs) t cmp = elim (cmp x t) [
    | Ordering.lt ↦ (suc (scan xs t cmp).0, (scan xs t cmp).1)
    | Ordering.eq ↦ (0, true)
    | Ordering.gt ↦ (0, false)
  ]

  unfoldable pub splice : List A → ℕ → A → List A
  splice xs zero v = v ∷ xs
  splice [] (suc i) v = v ∷ []
  splice (x ∷ xs) (suc i) v = x ∷ splice xs i v

  pub scan_missing :
      (xs ys : List A) (t : A) (cmp : A → A → Ordering)
      → All (λ a. cmp a t ≡ Ordering.lt) xs
      → All (λ a. cmp a t ≡ Ordering.gt) ys
      → scan (xs ++ ys) t cmp ≡ (length xs, false)
  unfolding scan
  scan_missing [] [] t cmp h k = refl
  scan_missing [] (y ∷ ys) t cmp h k = rw (k.0, scan)
  scan_missing (x ∷ xs) ys t cmp h k = rw (h.0, scan) (rw (scan_missing xs ys t cmp h.1 k))

  pub scan_found :
      (xs : List A) (x : A) (ys : List A) (t : A) (cmp : A → A → Ordering)
      → All (λ a. cmp a t ≡ Ordering.lt) xs
      → cmp x t ≡ Ordering.eq
      → All (λ a. cmp a t ≡ Ordering.gt) ys
      → scan (xs ++ x ∷ ys) t cmp ≡ (length xs, true)
  unfolding scan
  scan_found [] x ys t cmp h e k = rw (e, scan)
  scan_found (z ∷ xs) x ys t cmp h e k = rw (h.0, scan) (rw (scan_found xs x ys t cmp h.1 e k))

  pub splice_lem : (xs ys : List A) (v : A) → splice (xs ++ ys) (length xs) v ≡ xs ++ v ∷ ys
  unfolding splice
  splice_lem [] ys v = refl
  splice_lem (x ∷ xs) ys v = ap (◌∷◌ x) (splice_lem xs ys v)

-- One implementation that meets the documentation, by a scan.
unfoldable pub scanning : (A : Type 0) → Slices A
unfolding scan splice
scanning A = record {
  binary_search_func = scan;
  insert = splice;
  binary_search_func_missing = scan_missing;
  binary_search_func_found = scan_found;
  insert_lem = splice_lem;
}
