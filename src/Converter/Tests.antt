-- ===== src/Converter/Tests.antt =====
-- The builders of an event at concrete values: two of them, of seven partitions.
use apm_aggregation.Base.{ℕ, ◌≡◌, some, List, [], ◌∷◌, arith}
use apm_aggregation.Converter.Partitions.{EventMetricsBuilder, get}
use apm_aggregation.Converter.Get.{IsPartitioned, Gets, get-Gets}

abbrev builders : List (EventMetricsBuilder ℕ)
builders = record { partition = 5; metrics = 1 } ∷ record { partition = 2; metrics = 3 } ∷ []

builders-IsPartitioned : IsPartitioned 7 builders
builders-IsPartitioned = (omega arith, (λ h. ground arith, tt), (omega arith, tt, tt))

get-Gets_example :
    (i : ℕ) × ((bs' : List (EventMetricsBuilder ℕ)) × (get 0 7 100 builders ≡ some (i, bs'))
      × Gets 0 7 2 builders i bs')
get-Gets_example = get-Gets 0 7 100 builders (omega arith) (omega arith) builders-IsPartitioned
