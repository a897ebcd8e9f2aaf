-- ===== src/Hdr/Counts/Adds.antt =====
-- `Add` of the hybrid counts and the bars that `ForEach` visits.
use apm_aggregation.Base.{
  ℕ, zero, suc, ◌<◌, ◌^◌, ◌≡◌, refl, subst, ◌≢◌, ◌⊎◌, inl, inr, Option, none, some, List, [], ◌∷◌,
  arith,
}
use apm_aggregation.Base.Tests.{◌==◌, if◌then◌else◌}
use apm_aggregation.Base.Words.{add64, add64-zero}
use apm_aggregation.Base.Search.{Slices}
use apm_aggregation.Bars.{Bar, IsSortedFrom, InRange, count_at, merge}
use apm_aggregation.Bars.Merge.{merge-IsSortedFrom, merge-InRange, count_at-merge, count_at-lt}
use apm_aggregation.Hdr.Counts.{HybridCountsRep, add, for_each, empty}
use apm_aggregation.Hdr.Counts.Laws.{add_slice_lem}
use apm_aggregation.Bars.Place.{bar}

pub record IsValid (c : HybridCountsRep) : Type 0 where
  pub sorted : IsSortedFrom 0 (for_each c)
  pub ranged : InRange (for_each c)

-- The bars after an `Add`: merged, or untouched if a zero was added to bucket 0.
abbrev pub Added : List Bar → ℕ → ℕ → List Bar → Type 0
Added s b v t = (t ≡ merge s (bar b v ∷ [])) ⊎ ((b ≡ 0) × (v ≡ 0) × (t ≡ s))

zero_or_busy : (k w : ℕ) → ((k ≡ 0) × (w ≡ 0)) ⊎ ((k ≢ 0) ⊎ (w ≢ 0))
zero_or_busy zero zero = inl (refl, refl)
zero_or_busy zero (suc w) = inr (inr (omega arith))
zero_or_busy (suc k) w = inr (inl (omega arith))

for_each_zero : for_each empty ≡ []
unfolding for_each
for_each_zero = refl

for_each_busy :
    (k w : ℕ)
    → (k ≢ 0) ⊎ (w ≢ 0)
    → for_each (record { bucket = k; value = w; s = none }) ≡ bar k w ∷ []
unfolding for_each
for_each_busy k w busy = ground arith

-- What an `Add` of `v` to bucket `b` does.
pub record Adds (c : HybridCountsRep) (b v : ℕ) (c' : HybridCountsRep) : Type 0 where
  pub valid : IsValid c'
  pub counts :
      (q : ℕ) → count_at q (for_each c') ≡ add64 (count_at q (for_each c)) (if b == q then v else 0)
  pub bars : Added (for_each c) b v (for_each c')

module _ (lib : Slices Bar) where
  add_some :
      (s : List Bar) (k w b v : ℕ)
      → IsSortedFrom 0 s
      → InRange s
      → b < 2 ^ 31
      → add lib (record { bucket = k; value = w; s = some s }) b v
        ≡ some (record { bucket = k; value = w; s = some (merge s (bar b v ∷ [])) })
  unfolding add
  add_some s k w b v t r h = rw (add_slice_lem lib s b v t r h)

  -- The first `Add`: the bar goes into the two fields.
  add_first : (b v : ℕ) → add lib empty b v ≡ some (record { bucket = b; value = v; s = none })
  unfolding add
  add_first b v = refl

  -- The second: the slice is made of the bar in the fields.
  add_second :
      (k w b v : ℕ)
      → (k ≢ 0) ⊎ (w ≢ 0)
      → k < 2 ^ 31
      → w < 2 ^ 64
      → b < 2 ^ 31
      → add lib (record { bucket = k; value = w; s = none }) b v
        ≡ some (record { bucket = 0; value = 0; s = some (merge (bar k w ∷ []) (bar b v ∷ [])) })
  unfolding add
  add_second k w b v busy hk hw h =
      let slice = add_slice_lem lib (bar k w ∷ []) b v (omega arith, tt) ((hk, hw), tt) h in
      ground (arith, slice, lib.insert_lem [] [] (bar k w))

  add_cases_first :
      (b v : ℕ)
      → (c' : HybridCountsRep) × (add lib empty b v ≡ some c') × Added [] b v (for_each c')
  unfolding merge
  add_cases_first b v = elim (zero_or_busy b v) [
    | inl (eb, ev) ↦ (_, add_first b v, inr (eb, ev, rw (eb, ev) for_each_zero))
    | inr busy ↦ (_, add_first b v, inl (for_each_busy b v busy))
  ]

  add_cases :
      (s : Option (List Bar)) (k w b v : ℕ)
      → let c : HybridCountsRep = record { bucket = k; value = w; s = s } in
        IsValid c
        → b < 2 ^ 31
        → (c' : HybridCountsRep) × (add lib c b v ≡ some c') × Added (for_each c) b v (for_each c')
  unfolding for_each
  add_cases (some s) k w b v t h = (_, add_some s k w b v t.sorted t.ranged h, inl refl)
  add_cases none k w b v t h = elim (zero_or_busy k w) [
    | inl (ek, ew) ↦ rw (ek, ew) (add_cases_first b v)
    | inr busy ↦
        let one = for_each_busy k w busy in
        let range = subst InRange one t.ranged in
        (_, add_second k w b v busy range.0.0 range.0.1 h, inl (rw one))
  ]

count_at-bar : (q b v : ℕ) → v < 2 ^ 64 → count_at q (bar b v ∷ []) ≡ (if b == q then v else 0)
unfolding count_at add64
count_at-bar q b v h = ground arith

Adds-of :
    (c c' : HybridCountsRep) (b v : ℕ)
    → IsValid c
    → b < 2 ^ 31
    → v < 2 ^ 64
    → Added (for_each c) b v (for_each c')
    → Adds c b v c'
Adds-of c c' b v t hb hv (inl e) = record {
  valid = record {
    sorted = rw e (merge-IsSortedFrom 0 (for_each c) (bar b v ∷ []) t.sorted (omega arith, tt));
    ranged = rw e (merge-InRange (for_each c) (bar b v ∷ []) t.ranged ((hb, hv), tt));
  };
  counts = λ q. rw (e, count_at-merge, count_at-bar q b v hv) refl;
  bars = inl e;
}
Adds-of c c' b v t hb hv (inr (eb, ev, e)) = record {
  valid = record { sorted = rw e t.sorted; ranged = rw e t.ranged };
  counts = λ q. rw (e, ev) (ground (arith, add64-zero _ (count_at-lt q (for_each c))));
  bars = inr (eb, ev, e);
}

-- On valid counts, for a valid bucket `b` and an int64 `v`, `Add` returns and keeps the bars sorted
-- and in range. It adds `v` to the count of `b` and to no other, and what `ForEach` visits is the
-- merge of the bars with the new one, or is unchanged, which happens only if `b` and `v` are 0.
pub add-Adds :
    (lib : Slices Bar) (c : HybridCountsRep) (b v : ℕ)
    → IsValid c
    → b < 2 ^ 31
    → v < 2 ^ 64
    → (c' : HybridCountsRep) × (add lib c b v ≡ some c') × Adds c b v c'
add-Adds lib c b v t hb hv =
    let (c', run, added) = add_cases lib c.s c.bucket c.value b v t hb in
    (c', run, Adds-of c c' b v t hb hv added)
