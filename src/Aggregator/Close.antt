-- ===== src/Aggregator/Close.antt =====
-- `Close` of aggregators/aggregator.go, under the lock. `none` is a panic.
use apm_aggregation.Base.{ℕ, ◌+◌, Bool, true, false, not, ◌&&◌, Option, none, some, List, [], ◌∷◌}
use apm_aggregation.Base.Tests.{◌==◌, if◌then◌else◌}
use apm_aggregation.Base.Lists.{length}
use apm_aggregation.Base.Panic.{◌>>=◌}
use apm_aggregation.Cached
use apm_aggregation.Aggregator.Pebble.{Entries, Pebble}
use apm_aggregation.Aggregator.State.{Aggregator, Calls, truncate, RunStopped, running}
use apm_aggregation.Aggregator.Harvest.{Harvest, nothing, then_, harvest}

pub data CloseProblem : Type 0 where
  run_not_over : CloseProblem
  batch_not_committed : CloseProblem
  batch_not_closed : CloseProblem
  final_harvest : CloseProblem
  db_not_closed : CloseProblem
  not_cleaned_up : CloseProblem

-- The aggregator, whether its database is still there, the last harvests, and the error.
pub record Closing (Db M V : Type 0) : Type 0 where
  pub aggregator : Aggregator Db V
  pub is_open : Bool
  pub harvested : Harvest M
  pub error : Option CloseProblem

-- `runStopped` is open: the loop has not ended.
abbrev pub is_running : RunStopped → Bool
is_running running = true
is_running _ = false

abbrev pub ended :
    {Db M V : Type 0} → Aggregator Db V → Bool → Harvest M → Option CloseProblem → Closing Db M V
ended a is_open h e = record { aggregator = a; is_open = is_open; harvested = h; error = e }

-- `cleaned` is whether the clean-up of telemetry has no error.
abbrev pub cleaned_up :
    {Db M V : Type 0} → Bool → Aggregator Db V → Bool → Harvest M → Closing Db M V
cleaned_up cleaned a is_open h = ended a is_open h (if cleaned then none else some not_cleaned_up)

abbrev pub after_harvests :
    {Db M V : Type 0} → Pebble Db V → Bool → Aggregator Db V × Harvest M → Closing Db M V
after_harvests p cleaned (a, h) =
    if not (length h.errors == 0)
    then ended a true h (some final_harvest)
    else (if not (p.close_db a.db)
        then ended a true h (some db_not_closed)
        else cleaned_up cleaned a false h)

module _ {Db E M V F : Type 0} (p : Pebble Db V) (x : Calls E M V F) (ivls : List ℕ) where
  -- A harvest for each of the intervals, at the end of the interval that goes on.
  unfoldable pub final_harvests : List ℕ → Aggregator Db V → Option (Aggregator Db V × Harvest M)
  unfolding harvest truncate
  final_harvests [] a = some (a, nothing M)
  final_harvests (ivl ∷ rest) a = do
    let to = truncate a.processing_time ivl + ivl
    let left = (Cached.load_and_delete (λ (n : ℕ). n) to a.cached_events).1
    one ← harvest p x ivls to a.db
    more ← final_harvests rest (record a { db = one.0; cached_events = left })
    some (more.0, then_ one.1 more.1)

  abbrev pub finish : Bool → Aggregator Db V → Option (Closing Db M V)
  finish cleaned a = do r ← final_harvests ivls a; some (after_harvests p cleaned r)

  -- The part under `a.db != nil`.
  abbrev pub close_db : Bool → Option (Entries V) → Aggregator Db V → Option (Closing Db M V)
  close_db cleaned none a = finish cleaned a
  close_db cleaned (some ops) a =
      let (db, ok) = p.commit ops a.db in
      let b = record a { db = db } in
      let rest = finish cleaned (record b { batch = none }) in
      if not ok
      then some (ended b true (nothing M) (some batch_not_committed))
      else (if not (p.close_batch ops)
          then some (ended b true (nothing M) (some batch_not_closed))
          else rest)

  -- `over` is whether the loop ends before the context does.
  unfoldable pub close : Bool → Bool → Aggregator Db V → Bool → Option (Closing Db M V)
  unfolding final_harvests
  close over cleaned a is_open =
      let b = record a { closed = true } in
      let whole =
        if is_open
        then close_db cleaned b.batch b
        else some (cleaned_up cleaned b false (nothing M)) in
      if is_running b.run_stopped && not over
      then some (ended b is_open (nothing M) (some run_not_over))
      else whole
