-- ===== src/Aggregator/Closed.antt =====
-- What the last harvests of `Close` of aggregators/aggregator.go leave of timely entries: none.
use native.Mathlib.Nat.{mul-le-mul_right}
use apm_aggregation.Base.{
  ℕ, zero, suc, ◌+◌, ◌-◌, ◌*◌, ◌/◌, ◌^◌, ◌<◌, ◌≤◌, ◌≡◌, refl, sym, ap, ◌∙◌, subst, true, false,
  some, List, [], ◌∷◌, inl, inr, arith,
}
use apm_aggregation.Base.Tests.{compare_cases}
use apm_aggregation.Base.Lists.{All, get_elem?}
use apm_aggregation.Codec.Key.{CombinedMetricsKey, second}
use apm_aggregation.Cached.{ends_at}
use apm_aggregation.Aggregator.Bounds.{IsInterval, is_between}
use apm_aggregation.Aggregator.Due.{remaining}
use apm_aggregation.Aggregator.State.{truncate}
use apm_aggregation.Aggregator.Timely.{
  last_time, AreIntervals, Timely, OfTimely, IsPassed, All-remaining, remaining-IsPassed,
}
use apm_aggregation.Aggregator.Unfinished.{each_at, not_passed}
use apm_aggregation.Aggregator.Written.{truncate_lem}

module _ {V : Type 0} where
  -- The entries that the last harvests leave.
  abbrev pub finally :
      List ℕ → List ℕ → ℕ → List (CombinedMetricsKey × V) → List (CombinedMetricsKey × V)
  finally ivls [] now kvs = kvs
  finally ivls (j ∷ js) now kvs = finally ivls js now (remaining ivls (truncate now j + j) kvs)

  All-finally :
      (R : CombinedMetricsKey × V → Type 0) (ivls js : List ℕ) (now : ℕ)
      (kvs : List (CombinedMetricsKey × V))
      → All R kvs
      → All R (finally ivls js now kvs)
  All-finally R ivls [] now kvs h = h
  All-finally R ivls (j ∷ js) now kvs h =
      All-finally R ivls js now _ (All-remaining R ivls (truncate now j + j) kvs h)

  finally-IsPassed :
      (ivls js : List ℕ) (now i place ivl : ℕ) (kvs : List (CombinedMetricsKey × V))
      → get_elem? js i ≡ some ivl
      → get_elem? ivls place ≡ some ivl
      → All (IsPassed (truncate now ivl + ivl) ivl) (finally ivls js now kvs)
  finally-IsPassed ivls [] now i place ivl kvs h k = absurd (ground arith)
  finally-IsPassed ivls (j ∷ js) now zero place ivl kvs h k =
      let same : ivl ≡ j = ground (arith, h) in
      All-finally (IsPassed (truncate now ivl + ivl) ivl) ivls js now _ (
        subst
          (λ j.
            All (IsPassed (truncate now ivl + ivl) ivl) (remaining ivls (truncate now j + j) kvs))
          same (remaining-IsPassed ivls (truncate now ivl + ivl) place ivl kvs k))
  finally-IsPassed ivls (j ∷ js) now (suc i) place ivl kvs h k =
      finally-IsPassed ivls js now i place ivl _ h k

module _ {lowest : ℕ} {ivls : List ℕ} (a : AreIntervals lowest ivls) (now : ℕ)
    (l : now + 2 ^ 16 * second < last_time) where
  turn_lem :
      (turn ivl : ℕ)
      → turn * ivl ≤ now
      → now < turn * ivl + ivl
      → truncate now ivl ≡ (now / ivl) * ivl
      → truncate now ivl ≤ now
      → now < truncate now ivl + ivl
      → truncate now ivl ≡ turn * ivl
  turn_lem turn ivl h k e f g = elim (compare_cases turn (now / ivl)) [
    | inl less ↦
        let m : suc turn * ivl ≤ (now / ivl) * ivl = mul-le-mul_right ivl (omega (arith, less)) in
        absurd (omega (arith, m, e, f, k))
    | inr (inl same) ↦ e ∙ ap (λ q. q * ivl) (sym same)
    | inr (inr above) ↦
        let m : suc (now / ivl) * ivl ≤ turn * ivl = mul-le-mul_right ivl (omega (arith, above)) in
        absurd (omega (arith, m, e, g, h))
  ]

  -- An entry that the last harvest of its interval passes is not timely.
  untimely :
      (ending : ℕ) (k : CombinedMetricsKey)
      → now < ending
      → Timely ivls now ending k
      → ((ivl : ℕ)
          → ivl ≡ k.interval
          → ends_at (truncate now ivl + ivl) ivl ≡ true
          → is_between ivl (truncate now ivl + ivl - ivl) (truncate now ivl + ivl) k ≡ false)
      → ⊥
  untimely ending k e t p =
      let i = each_at a IsInterval ivls t.place k.interval a.each t.listed in
      let ivl = k.interval in
      let (same, below, after) = truncate_lem now ivl i in
      let at : truncate now ivl ≡ t.turn * ivl =
        turn_lem t.turn ivl t.started (omega (arith, e, t.unfinished)) same below after in
      not_passed a now ending (truncate now ivl + ivl) k t
        (omega (arith, below, i.whole, i.most, l)) (p ivl refl) (omega (arith, at))

  module _ {V : Type 0} where
    none_left :
        (ending : ℕ) (kvs : List (CombinedMetricsKey × V))
        → now < ending
        → All (OfTimely ivls now ending) kvs
        → ((place ivl : ℕ)
            → get_elem? ivls place ≡ some ivl
            → All (IsPassed (truncate now ivl + ivl) ivl) kvs)
        → kvs ≡ []
    none_left ending [] e ts ps = refl
    none_left ending ((k, v) ∷ kvs) e ts ps =
        absurd (untimely ending k e ts.0 (λ ivl same. (ps ts.0.place ivl (rw same ts.0.listed)).0))

    pub finally-nil :
        (ending : ℕ) (kvs : List (CombinedMetricsKey × V))
        → now < ending
        → All (OfTimely ivls now ending) kvs
        → finally ivls ivls now kvs ≡ []
    finally-nil ending kvs e ts =
        none_left ending (finally ivls ivls now kvs) e
          (All-finally (OfTimely ivls now ending) ivls ivls now kvs ts)
          (λ place ivl h. finally-IsPassed ivls ivls now place place ivl kvs h h)
