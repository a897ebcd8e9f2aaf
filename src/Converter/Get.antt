-- ===== src/Converter/Get.antt =====
-- What `get` of aggregators/converter.go keeps of the builders of an event.
use native.Mathlib.Nat.{mod-lt}
use apm_aggregation.Base.{
  ℕ, zero, suc, ◌+◌, ◌%◌, ◌^◌, ◌<◌, ◌≡◌, ◌≢◌, refl, ap, ◌∙◌, ◌⊎◌, inl, inr, some, List, [], ◌∷◌,
  ◌++◌, arith,
}
use apm_aggregation.Base.Tests.{◌==◌, Bool-cases, ==_iff}
use apm_aggregation.Base.Lists.{All, get_elem?}
use apm_aggregation.Converter.Partitions.{EventMetricsBuilder, find_or_append, get}

-- One builder for a partition, and only partitions below `n`.
abbrev pub IsPartitioned : {M : Type 0} → ℕ → List (EventMetricsBuilder M) → Type 0
IsPartitioned n [] = Unit {0}
IsPartitioned n (b ∷ bs) =
    (b.partition < n) × All (λ c. b.partition ≢ c.partition) bs × IsPartitioned n bs

plus_zero : (k : ℕ) → 0 + k ≡ k
plus_zero k = omega arith

module _ {M : Type 0} (fresh : M) where
  -- The builders after `get`: those before, or one more at the end.
  pub record Gets (n p : ℕ) (bs : List (EventMetricsBuilder M)) (i : ℕ)
      (bs' : List (EventMetricsBuilder M)) : Type 0 where
    pub partitioned : IsPartitioned n bs'
    pub found : (b : EventMetricsBuilder M) × (get_elem? bs' i ≡ some b) × (b.partition ≡ p)
    pub kept : (bs' ≡ bs) ⊎ (bs' ≡ bs ++ record { partition = p; metrics = fresh } ∷ [])

  apart :
      (p q : ℕ) (i : ℕ) (bs : List (EventMetricsBuilder M))
      → q ≢ p
      → All (λ c. q ≢ c.partition) bs
      → All (λ c. q ≢ c.partition) (find_or_append fresh p i bs).1
  unfolding find_or_append
  apart p q i [] h a = (h, tt)
  apart p q i (b ∷ bs) h a = ground (arith, apart p q (suc i) bs h a.1)

  partitioned :
      (n p : ℕ) (i : ℕ) (bs : List (EventMetricsBuilder M))
      → p < n
      → IsPartitioned n bs
      → IsPartitioned n (find_or_append fresh p i bs).1
  unfolding find_or_append
  partitioned n p i [] h a = (h, tt, tt)
  partitioned n p i (b ∷ bs) h a =
      ground (arith, apart p b.partition (suc i) bs, partitioned n p (suc i) bs h a.2)

  found :
      (p : ℕ) (i : ℕ) (bs : List (EventMetricsBuilder M))
      → (k : ℕ) × ((find_or_append fresh p i bs).0 ≡ i + k)
        × ((b : EventMetricsBuilder M) × (get_elem? (find_or_append fresh p i bs).1 k ≡ some b)
            × (b.partition ≡ p))
  unfolding find_or_append
  found p i [] = (0, omega arith, (record { partition = p; metrics = fresh }, refl, refl))
  found p i (b ∷ bs) = elim (Bool-cases (b.partition == p)) [
    | inl same ↦ rw same (0, omega arith, (b, refl, (==_iff b.partition p).0 same))
    | inr other ↦ let (k, e, f) = found p (suc i) bs in rw other (suc k, omega (arith, e), f)
  ]

  kept :
      (p : ℕ) (i : ℕ) (bs : List (EventMetricsBuilder M))
      → ((find_or_append fresh p i bs).1 ≡ bs)
        ⊎ ((find_or_append fresh p i bs).1 ≡ bs ++ record { partition = p; metrics = fresh } ∷ [])
  unfolding find_or_append
  kept p i [] = inr refl
  kept p i (b ∷ bs) = elim (Bool-cases (b.partition == p)) [
    | inl same ↦ rw same (inl refl)
    | inr other ↦ elim (kept p (suc i) bs) [
      | inl e ↦ rw other (inl (ap (◌∷◌ b) e))
      | inr e ↦ rw other (inr (ap (◌∷◌ b) e))
    ]
  ]

  -- With builders of distinct partitions below a number `n` of partitions, from 1 to 65535, `get`
  -- does not panic. It gives the place of a builder of the partition that the sum has modulo `n`,
  -- keeps all builders and their places, appends one at most, and leaves one for each partition.
  pub get-Gets :
      (n h : ℕ) (bs : List (EventMetricsBuilder M))
      → 0 < n
      → n < 2 ^ 16
      → IsPartitioned n bs
      → (i : ℕ) × ((bs' : List (EventMetricsBuilder M)) × (get fresh n h bs ≡ some (i, bs'))
          × Gets n (h % n) bs i bs')
  unfolding get
  get-Gets zero h bs z l a = absurd (omega arith)
  get-Gets (suc n) h bs z l a =
      let p = h % suc n in
      let below : p < suc n = mod-lt h z in
      let same : p % 2 ^ 16 ≡ p = omega arith in
      let (k, e, f) = found p 0 bs in
      (
        (find_or_append fresh p 0 bs).0,
        (
          (find_or_append fresh p 0 bs).1,
          ap (λ (x : ℕ). some (find_or_append fresh x 0 bs)) same,
          record {
            partitioned = partitioned (suc n) p 0 bs below a;
            found = rw (e ∙ plus_zero k) f;
            kept = kept p 0 bs;
          },
        ),
      )
