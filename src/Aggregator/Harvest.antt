-- ===== src/Aggregator/Harvest.antt =====
-- Harvesting, aggregators/aggregator.go: from the entries of an interval to the calls of the
-- processor, one iteration of `Run`, and `Close`. `none` is a panic.
use apm_aggregation.Base.{ℕ, ◌+◌, ◌-◌, Bool, Option, none, some, List, [], ◌∷◌, ◌++◌}
use apm_aggregation.Base.Tests.{if◌then◌else◌}
use apm_aggregation.Base.Panic.{◌>>=◌}
use apm_aggregation.Codec.Key.{
  CombinedMetricsKey, Unmarshaled, insufficient_length, panics, key, unmarshal_binary,
}
use apm_aggregation.Cached.{ends_at}
use apm_aggregation.Cached
use apm_aggregation.Aggregator.Bounds.{bound}
use apm_aggregation.Aggregator.Pebble.{Entries, Pebble}
use apm_aggregation.Aggregator.State.{Aggregator, Calls}

pub data HarvestProblem : Type 0 where
  bad_key : HarvestProblem
  bad_value : HarvestProblem
  not_processed : HarvestProblem
  not_deleted : HarvestProblem
  not_committed : HarvestProblem
  not_closed : HarvestProblem

-- The calls of the processor (the key, the metrics and the interval), the number of those that it
-- took, and the errors.
pub record Harvest (M : Type 0) : Type 0 where
  pub calls : List (CombinedMetricsKey × M × ℕ)
  pub cm_count : ℕ
  pub errors : List HarvestProblem

abbrev pub nothing : (M : Type 0) → Harvest M
nothing M = record { calls = []; cm_count = 0; errors = [] }

-- One after the other.
abbrev pub then_ : {M : Type 0} → Harvest M → Harvest M → Harvest M
then_ h g = record {
  calls = h.calls ++ g.calls;
  cm_count = h.cm_count + g.cm_count;
  errors = h.errors ++ g.errors;
}

abbrev pub failed : {M : Type 0} → HarvestProblem → Harvest M
failed e = record { calls = []; cm_count = 0; errors = e ∷ [] }

module _ {Db E M V F : Type 0} (p : Pebble Db V) (x : Calls E M V F) where
  abbrev pub processed : CombinedMetricsKey → ℕ → Option M → Harvest M
  processed cmk ivl none = failed bad_value
  processed cmk ivl (some cm) =
      if x.processor cmk cm ivl
      then record { calls = (cmk, cm, ivl) ∷ []; cm_count = 1; errors = [] }
      else record { calls = (cmk, cm, ivl) ∷ []; cm_count = 0; errors = not_processed ∷ [] }

  unfoldable pub process_harvest : CombinedMetricsKey → V → ℕ → Harvest M
  process_harvest cmk cmb ivl = processed cmk ivl (x.unmarshal_vt cmb)

  abbrev pub read_entry : Unmarshaled → V → ℕ → Option (Harvest M)
  read_entry insufficient_length v ivl = some (failed bad_key)
  read_entry panics v ivl = none
  read_entry (key cmk) v ivl = some (process_harvest cmk v ivl)

  -- The loop of the iterator.
  unfoldable pub harvest_entries : ℕ → Entries V → Option (Harvest M)
  unfolding unmarshal_binary process_harvest
  harvest_entries ivl [] = some (nothing M)
  harvest_entries ivl ((k, v) ∷ es) = do
    h ← read_entry (unmarshal_binary k) v ivl
    g ← harvest_entries ivl es
    some (then_ h g)

  abbrev pub with_deletion : Db × Bool → Harvest M → Db × Harvest M
  with_deletion (db, ok) h = (db, if ok then h else record h { errors = not_deleted ∷ h.errors })

  unfoldable pub harvest_for_interval : Db → ℕ → ℕ → ℕ → Db → Option (Db × Harvest M)
  unfolding harvest_entries bound
  harvest_for_interval snap start end ivl db = do
    h ← harvest_entries ivl (p.iterate (bound ivl start) (bound ivl end) snap)
    some (with_deletion (p.delete_range (bound ivl start) (bound ivl end) db) h)

  -- `harvest` from an interval on.
  unfoldable pub harvest_intervals : List ℕ → Db → ℕ → Db → Option (Db × Harvest M)
  unfolding harvest_for_interval ends_at
  harvest_intervals [] snap end db = some (db, nothing M)
  harvest_intervals (ivl ∷ ivls) snap end db = do
    one ←
        if ends_at end ivl
        then harvest_for_interval snap (end - ivl) end ivl db
        else some (db, nothing M)
    rest ← harvest_intervals ivls snap end one.0
    some (rest.0, then_ one.1 rest.1)

  unfoldable pub harvest : List ℕ → ℕ → Db → Option (Db × Harvest M)
  unfolding harvest_intervals
  harvest ivls end db = harvest_intervals ivls db end db

  abbrev pub commit_errors : Entries V → Bool → Harvest M
  commit_errors ops ok =
      then_ (if ok then nothing M else failed not_committed)
        (if p.close_batch ops then nothing M else failed not_closed)

  unfoldable pub commit_and_harvest : List ℕ → Option (Entries V) → ℕ → Db → Option (Db × Harvest M)
  unfolding harvest
  commit_and_harvest ivls none to db = harvest ivls to db
  commit_and_harvest ivls (some ops) to db = do
    let (written, ok) = p.commit ops db
    end ← harvest ivls to written
    some (end.0, then_ (commit_errors ops ok) end.1)

  -- What an iteration of `Run` does under the lock when its timer fires, and the batch that it takes.
  unfoldable pub take_batch : ℕ → Aggregator Db V → Option (Entries V) × Aggregator Db V
  take_batch to a =
      let (taken, left) = Cached.load_and_delete (λ (n : ℕ). n) to a.cached_events in
      (a.batch, record a { batch = none; processing_time = to; cached_events = left })
