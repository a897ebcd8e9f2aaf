-- ===== src/Aggregator/Run.antt =====
-- `Run` of aggregators/aggregator.go with batches that come in meanwhile, as a step relation. The loop
-- takes the batch under the lock when its timer fires, and harvests without the lock: batches come in
-- between. `to` is the loop's variable.
use apm_aggregation.Base.{ℕ, ◌+◌, ◌<◌, ◌≡◌, Bool, Option, none, some, List}
use apm_aggregation.Base.Lists.{length}
use apm_aggregation.Aggregator.Pebble.{Entries, Pebble}
use apm_aggregation.Aggregator.State.{Aggregator, Calls, aggregate_batch}
use apm_aggregation.Aggregator.Harvest.{Harvest, commit_and_harvest, take_batch}
use apm_aggregation.Aggregator.Timely.{last_time}

-- `taken` is the batch that the loop harvests, unless it waits for its timer.
pub record System (Db V : Type 0) : Type 0 where
  pub aggregator : Aggregator Db V
  pub to : ℕ
  pub taken : Option (Option (Entries V))

abbrev pub system :
    {Db V : Type 0} → Aggregator Db V → ℕ → Option (Option (Entries V)) → System Db V
system a to taken = record { aggregator = a; to = to; taken = taken }

module _ {Db E M V F : Type 0} (p : Pebble Db V) (x : Calls E M V F) (lowest : ℕ)
    (ivls : List ℕ) where
  pub data Step : System Db V → System Db V → Type 0 where
    batches :
        (done prefer : Bool) (id : List ℕ) (es : List E) (a : Aggregator Db V) (to : ℕ)
        (taken : Option (Option (Entries V)))
        → length id ≡ 16
        → Step
            (system a to taken)
            (system (aggregate_batch p x done prefer ivls id es a).state to taken)
    fires :
        (a : Aggregator Db V) (to : ℕ)
        → Step (system a to none) (system (take_batch p x to a).1 to (some (take_batch p x to a).0))
    harvests :
        (a : Aggregator Db V) (to : ℕ) (b : Option (Entries V)) (db : Db) (h : Harvest M)
        → to < last_time
        → commit_and_harvest p x ivls b to a.db ≡ some (db, h)
        → Step (system a to (some b)) (system (record a { db = db }) (to + lowest) none)

  pub data Runs : System Db V → System Db V → Type 0 where
    here : (s : System Db V) → Runs s s
    more : {s t u : System Db V} → Step s t → Runs t u → Runs s u
