-- ===== src/Aggregator/Tests.antt =====
-- The aggregator at concrete values: intervals of one and of ten minutes, pebble as a list of entries.
use apm_aggregation.Base.{
  ℕ, ◌+◌, ◌-◌, ◌*◌, ◌^◌, ◌<◌, ◌≤◌, ◌≡◌, refl, subst, ◌↔◌, true, false, none, some, List, [], ◌∷◌,
  arith,
}
use apm_aggregation.Base.Lists.{All, replicate}
use apm_aggregation.Base.Panic.{some_eq}
use apm_aggregation.Codec.Key.{CombinedMetricsKey, second}
use apm_aggregation.Codec.Key.RoundTrip.{IsWhole, encoding}
use apm_aggregation.Cached.{ends_at}
use apm_aggregation.Aggregator.Order.{within}
use apm_aggregation.Aggregator.Bounds.{
  key_at, epoch, unix, bound, IsInterval, within-bound, is_between,
}
use apm_aggregation.Aggregator.Pebble.{Entries, listed, listed-IsPebble, listed-deletes}
use apm_aggregation.Aggregator.State.{Aggregator, Calls, aggregate_batch, running, truncate}
use apm_aggregation.Aggregator.Harvest.{harvest, take_batch}
use apm_aggregation.Aggregator.Due.{encoded, remaining, taken}
use apm_aggregation.Aggregator.Harvested.{Leaves, harvest-Leaves}
use apm_aggregation.Aggregator.Timely.{AreIntervals}
use apm_aggregation.Aggregator.Kept.{Converts}
use apm_aggregation.Aggregator.Run.{System, system, Runs, fires, here, more, batches}
use apm_aggregation.Aggregator.Invariant.{IsTimely}
use apm_aggregation.Aggregator.Progress.{new, run, runs-IsTimely}
use apm_aggregation.Aggregator.Spared.{key_at-within}

abbrev minute : ℕ
minute = 60 * second

abbrev ten_minutes : ℕ
ten_minutes = 600 * second

abbrev intervals : List ℕ
intervals = minute ∷ ten_minutes ∷ []

-- The start of a minute after 1970.
abbrev now : ℕ
now = (epoch + 1700000040) * second

abbrev calls : Calls ℕ ℕ ℕ ℕ
calls = record {
  marshal_vt = λ m. m;
  size_vt = λ m. 8;
  unmarshal_vt = λ v. some v;
  processor = λ k m ivl. true;
  event_to_combined_metrics = λ e k. some ((record k { partition_id = 3 }, e) ∷ []);
  events_total = λ m. m;
  of_length = λ n. n;
  scaled = λ n. n;
}

calls-Converts : Converts calls
calls-Converts = record {
  partitioned = λ e k cms h.
      subst
        (All (λ (km : CombinedMetricsKey × ℕ).
          (q : ℕ) × (q < 2 ^ 16) × (km.0 ≡ record k { partition_id = q })))
        (some_eq h) ((3, omega arith, refl), tt);
}

minute-IsInterval : IsInterval minute
minute-IsInterval = record { seconds = 60; whole = refl; least = omega arith; most = omega arith }

ten_minutes-IsInterval : IsInterval ten_minutes
ten_minutes-IsInterval = record {
  seconds = 600;
  whole = refl;
  least = omega arith;
  most = omega arith;
}

ends_now : ends_at now minute ≡ true
unfolding ends_at
ends_now = refl

intervals-AreIntervals : AreIntervals minute intervals
intervals-AreIntervals = record {
  lowest_IsInterval = minute-IsInterval;
  each = (minute-IsInterval, (ten_minutes-IsInterval, tt));
  multiples = ((1, refl), ((10, refl), tt));
}

-- A key of the minute before `now`, and one of the minute that begins then.
abbrev past : CombinedMetricsKey
past = record {
  interval = minute;
  unix = 1699999980;
  nanosecond = 0;
  partition_id = 3;
  id = replicate 16 7;
}

abbrev next : CombinedMetricsKey
next = record past { unix = 1700000040 }

past-IsWhole : IsWhole past
past-IsWhole = record {
  seconds = 60;
  interval = refl;
  seconds_range = omega arith;
  unix_range = omega arith;
  nanosecond = refl;
  partition_range = omega arith;
  id_length = refl;
}

next-IsWhole : IsWhole next
next-IsWhole = record {
  seconds = 60;
  interval = refl;
  seconds_range = omega arith;
  unix_range = omega arith;
  nanosecond = refl;
  partition_range = omega arith;
  id_length = refl;
}

within-bound_example :
    (within (bound minute (now - minute)) (bound minute now) (encoding past) ≡ true)
    ↔ ((minute ≡ minute) × (unix (now - minute) ≤ 1699999980) × (1699999980 < unix now))
within-bound_example = within-bound past minute (now - minute) now past-IsWhole minute-IsInterval

abbrev entries : List (CombinedMetricsKey × ℕ)
entries = (past, 5) ∷ (next, 6) ∷ []

-- Only the key of the past minute is taken.
taken_past : taken intervals now entries ≡ (past, 5) ∷ []
unfolding ends_at is_between unix
taken_past = refl

harvest-Leaves_example :
    Leaves
      (listed ℕ)
      calls
      (λ d. d)
      (listed-IsPebble ℕ)
      (harvest (listed ℕ) calls intervals now (encoded entries))
      (remaining intervals now entries)
      (taken intervals now entries)
harvest-Leaves_example =
    harvest-Leaves (listed ℕ) calls (λ d. d) (listed-IsPebble ℕ) (listed-deletes ℕ) intervals
      (encoded entries) now entries intervals-AreIntervals.each refl
      (past-IsWhole, (next-IsWhole, tt))

-- An aggregator and its loop as they start.
abbrev fresh : Aggregator (Entries ℕ) ℕ
fresh = record {
  db = [];
  processing_time = now;
  batch = none;
  cached_events = [];
  closed = false;
  run_stopped = running;
}

abbrev begun : System (Entries ℕ) ℕ
begun = system fresh (now + minute) none

abbrev TimelyHere : System (Entries ℕ) ℕ → Type 0
TimelyHere s =
    IsTimely (listed ℕ) calls (λ d. d) (listed-IsPebble ℕ) calls-Converts intervals-AreIntervals s

run-begun : run minute (new {V = ℕ} [] now minute) ≡ some begun
unfolding run new truncate
run-begun = refl

-- The state after a batch and the timer.
abbrev after_batch : Aggregator (Entries ℕ) ℕ
after_batch =
    (aggregate_batch (listed ℕ) calls false false intervals (replicate 16 7) (4 ∷ []) fresh).state

abbrev fired : System (Entries ℕ) ℕ
fired =
    system (take_batch (listed ℕ) calls (now + minute) after_batch).1 (now + minute)
      (some (take_batch (listed ℕ) calls (now + minute) after_batch).0)

begun-runs : Runs (listed ℕ) calls minute intervals begun fired
begun-runs =
    more (batches false false (replicate 16 7) (4 ∷ []) fresh (now + minute) none refl)
      (more (fires after_batch (now + minute)) (here fired))

runs-IsTimely_example : TimelyHere fired
runs-IsTimely_example =
    runs-IsTimely (listed ℕ) calls (λ d. d) (listed-IsPebble ℕ) calls-Converts
      intervals-AreIntervals (listed-deletes ℕ) [] now begun fired refl (omega arith) run-begun
      begun-runs

key_at-within_example :
    within (bound minute (now - minute)) (bound minute now) (
      encoding (record (key_at ten_minutes (truncate now ten_minutes) 0 (replicate 16 7)) {
        partition_id = 3;
      }))
    ≡ false
key_at-within_example =
    key_at-within now ten_minutes minute 3 (replicate 16 7) ten_minutes-IsInterval minute-IsInterval
      ends_now refl (omega arith)
