-- ===== src/Aggregator/Progress.antt =====
-- An aggregator from `New` on, aggregators/aggregator.go: the states that `Run` and the batches that
-- come in reach, and that the loop goes on.
use apm_aggregation.Base.{
  ℕ, ◌+◌, ◌/◌, ◌≤◌, ◌≡◌, refl, sym, subst, true, false, Option, none, some, List, [], arith,
}
use apm_aggregation.Base.Lists.{All}
use apm_aggregation.Base.Panic.{some_eq}
use apm_aggregation.Aggregator.Pebble.{Entries, Pebble, IsPebble, OfKey}
use apm_aggregation.Aggregator.State.{Aggregator, Calls, RunStopped, unset, running, truncate}
use apm_aggregation.Aggregator.Timely.{AreIntervals, Held}
use apm_aggregation.Aggregator.Kept.{Converts}
use apm_aggregation.Aggregator.Run.{System, system, Runs}
use apm_aggregation.Aggregator.Written.{first_time, truncate_lem}
use apm_aggregation.Aggregator.Invariant.{IsTimely}
use apm_aggregation.Aggregator.Steps.{run-IsTimely}

-- `New`, with the database that it opens and the current time.
unfoldable pub new : {Db V : Type 0} → Db → ℕ → ℕ → Aggregator Db V
unfolding truncate
new db now lowest = record {
  db = db;
  processing_time = truncate now lowest;
  batch = none;
  cached_events = [];
  closed = false;
  run_stopped = unset;
}

abbrev starts : {Db V : Type 0} → RunStopped → System Db V → Option (System Db V)
starts unset s = some s
starts _ s = none

-- The start of `Run`; `none` is the error that it runs already.
unfoldable pub run : {Db V : Type 0} → ℕ → Aggregator Db V → Option (System Db V)
run lowest a =
    starts a.run_stopped
      (system (record a { run_stopped = running }) (a.processing_time + lowest) none)

module _ {Db E M V F : Type 0} (p : Pebble Db V) (x : Calls E M V F) (contents : Db → Entries V)
    (law : IsPebble p contents) (c : Converts x) {lowest : ℕ} {ivls : List ℕ}
    (a : AreIntervals lowest ivls) where
  new-IsTimely :
      (db : Db) (now : ℕ) (s : System Db V)
      → contents db ≡ []
      → first_time + lowest ≤ now
      → run lowest (new db now lowest) ≡ some s
      → IsTimely p x contents law c a s
  unfolding new run
  new-IsTimely db now s e f h =
      let (same, below, after) = truncate_lem now lowest a.lowest_IsInterval in
      subst (IsTimely p x contents law c a) (some_eq h) (record {
        turn = now / lowest;
        multiple = same;
        modern = omega (arith, after, f);
        aligned = refl;
        stored =
            subst (All (OfKey (Held ivls (truncate now lowest) (truncate now lowest + lowest))))
              (sym e) tt;
        batched = tt;
        harvesting = tt;
      })

  module _ (deletes : (lb ub : List ℕ) (d : Db) → (p.delete_range lb ub d).1 ≡ true) where
    -- If no range deletion of the database fails, then in every state that `Run` reaches from a new
    -- aggregator with an empty database, its iterations and the batches of AggregateBatch interleaved in
    -- any way, every key in the database and in the batches is of a configured interval that has
    -- started by the processing time, and ends after the last harvest. The clock starts at a lowest
    -- interval after 1970 or later, the intervals are whole seconds below 2 ^ 16, multiples of the
    -- lowest one, and the conversion of events changes keys in the partition alone.
    pub runs-IsTimely :
        (db : Db) (now : ℕ) (s t : System Db V)
        → contents db ≡ []
        → first_time + lowest ≤ now
        → run lowest (new db now lowest) ≡ some s
        → Runs p x lowest ivls s t
        → IsTimely p x contents law c a t
    runs-IsTimely db now s t e f h r =
        run-IsTimely p x contents law c a deletes s t r (new-IsTimely db now s e f h)

    -- The loop waits at a processing time.
    abbrev pub Waits : ℕ → Aggregator Db V → ℕ → Type 0
    Waits time g to = (g.processing_time ≡ time) × IsTimely p x contents law c a (system g to none)
