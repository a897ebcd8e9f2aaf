-- ===== src/Aggregator/Emptied.antt =====
-- What `Close` of aggregators/aggregator.go leaves in the database.
use apm_aggregation.Base.{ℕ, ◌≡◌, true, Option, some, List, []}
use apm_aggregation.Cached
use apm_aggregation.Aggregator.Pebble.{Entries, Pebble, IsPebble}
use apm_aggregation.Aggregator.State.{Aggregator, Calls}
use apm_aggregation.Aggregator.Harvest.{Harvest}
use apm_aggregation.Aggregator.Timely.{AreIntervals}
use apm_aggregation.Aggregator.Kept.{Converts}
use apm_aggregation.Aggregator.Close.{Closing}

module _ {Db E M V F : Type 0} (p : Pebble Db V) (x : Calls E M V F) (contents : Db → Entries V)
    (law : IsPebble p contents)
    (deletes : (lb ub : List ℕ) (d : Db) → (p.delete_range lb ub d).1 ≡ true) where
  module _ (c : Converts x) {lowest : ℕ} {ivls : List ℕ} (a : AreIntervals lowest ivls) where
    -- A result with nothing in the database.
    abbrev pub Empties : Option (Closing Db M V) → Type 0
    Empties r = (end : Closing Db M V) × (r ≡ some end) × (contents end.aggregator.db ≡ [])
