-- ===== src/Aggregator/Timely.antt =====
-- Keys whose interval goes on: what `AggregateBatch` of aggregators/aggregator.go writes, and what a
-- harvest leaves of it.
use apm_aggregation.Base.{
  ℕ, zero, suc, ◌+◌, ◌-◌, ◌*◌, ◌^◌, ◌≤◌, ◌≡◌, refl, sym, true, false, some, List, [], ◌∷◌, inl, inr,
  arith,
}
use apm_aggregation.Base.Tests.{Bool-cases}
use apm_aggregation.Base.Lists.{All, get_elem?}
use apm_aggregation.Base.Panic.{some_eq}
use apm_aggregation.Codec.Key.{CombinedMetricsKey, second}
use apm_aggregation.Codec.Key.RoundTrip.{IsWhole, encoding}
use apm_aggregation.Cached.{ends_at}
use apm_aggregation.Aggregator.Bounds.{epoch, unix, IsInterval, is_between}
use apm_aggregation.Aggregator.Pebble.{Entries, OfKey}
use apm_aggregation.Aggregator.Due.{encoded, kept, remaining}

-- The times in question: from 1970 on, with seconds that fit into an int64.
abbrev pub last_time : ℕ
last_time = 2 ^ 63 * second

-- Intervals of whole seconds that are multiples of the lowest.
pub record AreIntervals (lowest : ℕ) (ivls : List ℕ) : Type 0 where
  pub lowest_IsInterval : IsInterval lowest
  pub each : All IsInterval ivls
  pub multiples : All (λ ivl. (c : ℕ) × (ivl ≡ c * lowest)) ivls

-- A key of a configured interval that starts at or before `now` and ends at `ending` or later.
pub record Timely (ivls : List ℕ) (now ending : ℕ) (k : CombinedMetricsKey) : Type 0 where
  pub whole : IsWhole k
  pub place : ℕ
  pub listed : get_elem? ivls place ≡ some k.interval
  pub turn : ℕ
  pub time : k.unix ≡ unix (turn * k.interval)
  pub modern : epoch * second ≤ turn * k.interval
  pub started : turn * k.interval ≤ now
  pub unfinished : ending ≤ turn * k.interval + k.interval

-- The same of an encoded key.
abbrev pub Held : List ℕ → ℕ → ℕ → List ℕ → Type 0
Held ivls now ending kb = (k : CombinedMetricsKey) × (kb ≡ encoding k) × Timely ivls now ending k

abbrev pub OfTimely : {V : Type 0} → List ℕ → ℕ → ℕ → CombinedMetricsKey × V → Type 0
OfTimely ivls now ending (k, v) = Timely ivls now ending k

module _ {V : Type 0} where
  -- Entries of such keys are encoded ones.
  pub decoded :
      (ivls : List ℕ) (now ending : ℕ) (es : Entries V)
      → All (OfKey (Held ivls now ending)) es
      → (kvs : List (CombinedMetricsKey × V)) × (es ≡ encoded kvs)
        × All (OfTimely ivls now ending) kvs
  decoded ivls now ending [] a = ([], refl, tt)
  decoded ivls now ending ((kb, v) ∷ es) a =
      let (kvs, e, b) = decoded ivls now ending es a.1 in
      let (k, same, t) = a.0 in ((k, v) ∷ kvs, (λ i. (same i, v) ∷ e i), (t, b))

  pub held :
      (ivls : List ℕ) (now ending : ℕ) (kvs : List (CombinedMetricsKey × V))
      → All (OfTimely ivls now ending) kvs
      → All (OfKey (Held ivls now ending)) (encoded kvs)
  held ivls now ending [] a = tt
  held ivls now ending ((k, v) ∷ kvs) a = ((k, refl, a.0), held ivls now ending kvs a.1)

  All-kept :
      (R : CombinedMetricsKey × V → Type 0) (ivl start end : ℕ)
      (kvs : List (CombinedMetricsKey × V))
      → All R kvs
      → All R (kept ivl start end kvs)
  All-kept R ivl start end [] a = tt
  All-kept R ivl start end ((k, v) ∷ kvs) a = elim (Bool-cases (is_between ivl start end k)) [
    | inl gone ↦ rw gone (All-kept R ivl start end kvs a.1)
    | inr stays ↦ rw stays (a.0, All-kept R ivl start end kvs a.1)
  ]

  pub All-remaining :
      (R : CombinedMetricsKey × V → Type 0) (ivls : List ℕ) (end : ℕ)
      (kvs : List (CombinedMetricsKey × V))
      → All R kvs
      → All R (remaining ivls end kvs)
  All-remaining R [] end kvs a = a
  All-remaining R (ivl ∷ ivls) end kvs a = elim (Bool-cases (ends_at end ivl)) [
    | inl ends ↦ rw ends (All-remaining R ivls end _ (All-kept R ivl (end - ivl) end kvs a))
    | inr on ↦ rw on (All-remaining R ivls end kvs a)
  ]

  -- Not taken by the harvest of an interval.
  abbrev pub IsPassed : ℕ → ℕ → CombinedMetricsKey × V → Type 0
  IsPassed end ivl (k, v) = ends_at end ivl ≡ true → is_between ivl (end - ivl) end k ≡ false

  kept-IsPassed :
      (ivl end : ℕ) (kvs : List (CombinedMetricsKey × V))
      → All (IsPassed end ivl) (kept ivl (end - ivl) end kvs)
  kept-IsPassed ivl end [] = tt
  kept-IsPassed ivl end ((k, v) ∷ kvs) = elim (Bool-cases (is_between ivl (end - ivl) end k)) [
    | inl gone ↦ rw gone (kept-IsPassed ivl end kvs)
    | inr stays ↦ rw stays ((λ ends. stays), kept-IsPassed ivl end kvs)
  ]

  all-IsPassed :
      (ivl end : ℕ) (kvs : List (CombinedMetricsKey × V))
      → ends_at end ivl ≡ false
      → All (IsPassed end ivl) kvs
  all-IsPassed ivl end [] on = tt
  all-IsPassed ivl end ((k, v) ∷ kvs) on = ((λ ends. ground arith), all-IsPassed ivl end kvs on)

  -- What remains is passed by every interval.
  pub remaining-IsPassed :
      (ivls : List ℕ) (end i ivl : ℕ) (kvs : List (CombinedMetricsKey × V))
      → get_elem? ivls i ≡ some ivl
      → All (IsPassed end ivl) (remaining ivls end kvs)
  remaining-IsPassed [] end i ivl kvs h = absurd (ground arith)
  remaining-IsPassed (j ∷ ivls) end zero ivl kvs h = elim (Bool-cases (ends_at end j)) [
    | inl ends ↦
        rw (ends, sym (some_eq h))
          (All-remaining (IsPassed end j) ivls end _ (kept-IsPassed j end kvs))
    | inr on ↦
        rw (on, sym (some_eq h))
          (All-remaining (IsPassed end j) ivls end kvs (all-IsPassed j end kvs on))
  ]
  remaining-IsPassed (j ∷ ivls) end (suc i) ivl kvs h = remaining-IsPassed ivls end i ivl _ h
