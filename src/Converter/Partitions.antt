-- ===== src/Converter/Partitions.antt =====
-- `get` of `partitionedMetricsBuilder`, aggregators/converter.go. What a builder holds besides its
-- partition is `M`, and `fresh` what it holds when it comes from the pool. A pointer to a builder is
-- its place in the list.
use apm_aggregation.Base.{ℕ, zero, suc, ◌%◌, ◌^◌, Option, none, some, List, [], ◌∷◌}
use apm_aggregation.Base.Tests.{◌==◌, if◌then◌else◌}

pub record EventMetricsBuilder (M : Type 0) : Type 0 where
  pub partition : ℕ
  pub metrics : M

module _ {M : Type 0} (fresh : M) where
  -- The loop over the builders, from place `i` on, and the append after it.
  unfoldable pub find_or_append :
      ℕ → ℕ → List (EventMetricsBuilder M) → ℕ × List (EventMetricsBuilder M)
  find_or_append partition i [] = (i, record { partition = partition; metrics = fresh } ∷ [])
  find_or_append partition i (mb ∷ builders) =
      let (at, rest) = find_or_append partition (suc i) builders in
      if mb.partition == partition then (i, mb ∷ builders) else (at, mb ∷ rest)

  -- For the digest's sum `h`; a remainder by zero panics.
  unfoldable pub get :
      ℕ → ℕ → List (EventMetricsBuilder M) → Option (ℕ × List (EventMetricsBuilder M))
  unfolding find_or_append
  get zero h builders = none
  get (suc n) h builders = some (find_or_append (h % suc n % 2 ^ 16) 0 builders)
