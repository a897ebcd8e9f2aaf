-- ===== src/Aggregator/Unfinished.antt =====
-- What a harvest of aggregators/aggregator.go leaves of timely entries: those whose interval goes on.
use native.Mathlib.Nat.{mul-le-mul_right, mul-mod_left, mul_assoc}
use apm_aggregation.Base.{
  ℕ, zero, suc, ◌+◌, ◌-◌, ◌*◌, ◌%◌, ◌<◌, ◌≤◌, ◌≡◌, refl, sym, ap, ◌∙◌, subst, true, false, some,
  List, [], ◌∷◌, inl, inr, arith,
}
use apm_aggregation.Base.Tests.{compare_cases}
use apm_aggregation.Base.Lists.{All, get_elem?}
use apm_aggregation.Base.Panic.{some_eq}
use apm_aggregation.Codec.Key.{CombinedMetricsKey, second}
use apm_aggregation.Cached.{ends_at}
use apm_aggregation.Aggregator.Bounds.{epoch, unix, IsInterval, is_between, is_between_lem}
use apm_aggregation.Aggregator.Due.{remaining}
use apm_aggregation.Aggregator.Timely.{
  last_time, AreIntervals, Timely, OfTimely, IsPassed, All-remaining, remaining-IsPassed,
}

pub quotient_step :
    (n q lowest x end : ℕ) → end ≡ n * lowest → x ≡ q * lowest → end < x → end + lowest ≤ x
quotient_step n q lowest x end e f h = elim (compare_cases n q) [
  | inl less ↦
      let m : suc n * lowest ≤ q * lowest = mul-le-mul_right lowest (omega (arith, less)) in
      omega (arith, e, f, m)
  | inr (inl same) ↦ absurd (omega (arith, h, e, f, ap (λ x. x * lowest) same))
  | inr (inr more) ↦
      let m : q * lowest ≤ n * lowest = mul-le-mul_right lowest (omega (arith, more)) in
      absurd (omega (arith, e, f, h, m))
]

pub later_time :
    (t s : ℕ)
    → epoch * second ≤ t
    → 0 < s
    → t + s * second < last_time
    → unix t < unix (t + s * second)
unfolding unix
later_time t s h k l = omega (arith, h, k, l)

pub ends_at-multiple : (end ivl turn : ℕ) → end ≡ suc turn * ivl → ends_at end ivl ≡ true
unfolding ends_at
ends_at-multiple end ivl turn e =
    let r : end % ivl ≡ 0 = ap (λ x. x % ivl) e ∙ mul-mod_left (suc turn) ivl in ground (arith, r)

module _ {lowest : ℕ} {ivls : List ℕ} (a : AreIntervals lowest ivls) where
  pub each_at :
      (P : ℕ → Type 0) (ivls : List ℕ) (i ivl : ℕ)
      → All P ivls
      → get_elem? ivls i ≡ some ivl
      → P ivl
  each_at P [] i ivl ps h = absurd (ground arith)
  each_at P (j ∷ js) zero ivl ps h = subst P (some_eq h) ps.0
  each_at P (j ∷ js) (suc i) ivl ps h = each_at P js i ivl ps.1 h

  -- The end of its interval is a time at which a key is harvested.
  pub ending-is_between :
      (now ending end : ℕ) (k : CombinedMetricsKey) (t : Timely ivls now ending k)
      → end < last_time
      → end ≡ t.turn * k.interval + k.interval
      → (ends_at end k.interval ≡ true) × (is_between k.interval (end - k.interval) end k ≡ true)
  ending-is_between now ending end k t l e =
      let i = each_at IsInterval ivls t.place k.interval a.each t.listed in
      let ivl = k.interval in
      let start = t.turn * ivl in
      let back : end - ivl ≡ start = omega (arith, e) in
      let later = later_time start i.seconds t.modern i.least (omega (arith, e, i.whole, l)) in
      let same : start + i.seconds * second ≡ end = omega (arith, e, i.whole) in
      (
        ends_at-multiple end ivl t.turn (omega (arith, e)),
        (is_between_lem ivl (end - ivl) end k).1
            (refl, rw (back, t.time) (omega arith), rw (t.time, sym same) later),
      )

  -- An interval that ends now would have been harvested.
  pub not_passed :
      (now ending end : ℕ) (k : CombinedMetricsKey) (t : Timely ivls now ending k)
      → end < last_time
      → (ends_at end k.interval ≡ true → is_between k.interval (end - k.interval) end k ≡ false)
      → end ≡ t.turn * k.interval + k.interval
      → ⊥
  not_passed now ending end k t l p e =
      let (ends, inside) = ending-is_between now ending end k t l e in
      ground (arith, p ends, inside)

  pub multiple_lem :
      (turn ivl c : ℕ) → ivl ≡ c * lowest → turn * ivl + ivl ≡ (suc turn * c) * lowest
  multiple_lem turn ivl c h =
      let m = mul_assoc (suc turn) c lowest in
      let e = ap (λ x. suc turn * x) h in omega (arith, m, e)

  goes_on :
      (end n : ℕ) (k : CombinedMetricsKey)
      → end ≡ n * lowest
      → end < last_time
      → Timely ivls end end k
      → (ends_at end k.interval ≡ true → is_between k.interval (end - k.interval) end k ≡ false)
      → Timely ivls end (end + lowest) k
  goes_on end n k e l t p =
      let (c, m) =
        each_at (λ ivl. (c : ℕ) × (ivl ≡ c * lowest)) ivls t.place k.interval a.multiples
          t.listed in
      let finish = t.turn * k.interval + k.interval in
      elim (compare_cases end finish) [
        | inl less ↦ record {
          whole = t.whole;
          place = t.place;
          listed = t.listed;
          turn = t.turn;
          time = t.time;
          modern = t.modern;
          started = t.started;
          unfinished =
              quotient_step n (suc t.turn * c) lowest finish end e
                (multiple_lem t.turn k.interval c m) less;
        }
        | inr (inl same) ↦ absurd (not_passed end end end k t l p same)
        | inr (inr more) ↦ absurd (omega (arith, more, t.unfinished))
      ]

  module _ {V : Type 0} where
    each_goes_on :
        (end n : ℕ) (kvs : List (CombinedMetricsKey × V))
        → end ≡ n * lowest
        → end < last_time
        → All (OfTimely ivls end end) kvs
        → ((i ivl : ℕ) → get_elem? ivls i ≡ some ivl → All (IsPassed end ivl) kvs)
        → All (OfTimely ivls end (end + lowest)) kvs
    each_goes_on end n [] e l ts ps = tt
    each_goes_on end n ((k, v) ∷ kvs) e l ts ps = (
      goes_on end n k e l ts.0 (ps ts.0.place k.interval ts.0.listed).0,
      each_goes_on end n kvs e l ts.1 (λ i ivl h. (ps i ivl h).1),
    )

    -- What a harvest at a multiple of the lowest interval leaves of entries whose intervals end then or
    -- later ends at the next multiple or later.
    pub remaining-OfTimely :
        (end n : ℕ) (kvs : List (CombinedMetricsKey × V))
        → end ≡ n * lowest
        → end < last_time
        → All (OfTimely ivls end end) kvs
        → All (OfTimely ivls end (end + lowest)) (remaining ivls end kvs)
    remaining-OfTimely end n kvs e l ts =
        each_goes_on end n (remaining ivls end kvs) e l
          (All-remaining (OfTimely ivls end end) ivls end kvs ts)
          (λ i ivl h. remaining-IsPassed ivls end i ivl kvs h)
