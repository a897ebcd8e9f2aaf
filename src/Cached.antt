-- ===== src/Cached.antt =====
-- `cachedEventsMap` of aggregators/cachedeventsmap.go. The map is an association list from an
-- interval and an ID to a count; pointers to counts are not shared outside of it. A duration is an
-- int64 of nanoseconds, a time the nanoseconds since the zero time.
pub mod Interleaved
pub mod Runs
pub mod Harvest
mod Tests
use native.Mathlib.Decide.{ℕ_discrete}
use apm_aggregation.Base.{ℕ, ◌+◌, ◌%◌, ◌/◌, Bool, ◌||◌, Option, none, some, List, [], ◌∷◌}
use apm_aggregation.Base.Tests.{◌==◌, if◌then◌else◌}
use apm_aggregation.Base.Words.{add64, negative64}
use apm_aggregation.Base.Assoc.{lookup, insert}
use apm_aggregation.Pb.{Text}

pub record CachedEventsStatsKey : Type 0 where
  pub interval : ℕ
  pub id : Text

pub CachedEventsStatsKey-discrete : Discrete CachedEventsStatsKey
CachedEventsStatsKey-discrete = hlevel ℕ_discrete

abbrev pub Counts : Type 0
Counts = List (CachedEventsStatsKey × ℕ)

-- `math.MaxUint16`.
abbrev pub max_uint16 : ℕ
max_uint16 = 65535

-- `end.Truncate(interval).Equal(end)`; an interval that is not positive truncates nothing.
unfoldable pub ends_at : ℕ → ℕ → Bool
ends_at end interval = interval == 0 || negative64 interval || end % interval == 0

-- A call of `add` and where it stands: before `Load`, before `LoadOrStore`, before `AddUint64`, and
-- after the end. `n` is the scaled number.
pub data Call : Type 0 where
  loading : CachedEventsStatsKey → ℕ → Call
  storing : CachedEventsStatsKey → ℕ → Call
  adding : CachedEventsStatsKey → ℕ → Call
  done : Call

-- `Load` found an entry or none.
abbrev loaded : CachedEventsStatsKey → ℕ → Option ℕ → Call
loaded k n none = storing k n
loaded k n (some v) = adding k n

abbrev stored : CachedEventsStatsKey → ℕ → Counts → Option ℕ → Counts × Call
stored k n m none = (insert CachedEventsStatsKey-discrete k n m, done)
stored k n m (some v) = (m, adding k n)

-- The addition to the count of an entry, which is there as nothing is deleted meanwhile.
abbrev added : CachedEventsStatsKey → ℕ → Counts → Option ℕ → Counts
added k n m none = m
added k n m (some v) = insert CachedEventsStatsKey-discrete k (add64 v n) m

-- The next atomic operation of a call.
unfoldable pub turn : Call → Counts → Counts × Call
turn (loading k n) m = (m, loaded k n (lookup CachedEventsStatsKey-discrete k m))
turn (storing k n) m = stored k n m (lookup CachedEventsStatsKey-discrete k m)
turn (adding k n) m = (added k n m (lookup CachedEventsStatsKey-discrete k m), done)
turn done m = (m, done)

-- `uint64(n * math.MaxUint16)` and the conversion to float64 are parameters.
module _ {F : Type 0} (scaled : F → ℕ) where
  abbrev pub start : ℕ → Text → F → Call
  start interval id n = loading (record { interval = interval; id = id }) (scaled n)

  -- `add` without other calls between its operations.
  unfoldable pub add : ℕ → Text → F → Counts → Counts
  unfolding turn
  add interval id n m =
      let (m₁, c₁) = turn (start interval id n) m in
      let (m₂, c₂) = turn c₁ m₁ in let (m₃, c₃) = turn c₂ m₂ in m₃

module _ {F : Type 0} (to_float : ℕ → F) where
  -- The entries that `Range` leaves, and the values that it takes out.
  unfoldable pub load_and_delete : ℕ → Counts → List (CachedEventsStatsKey × F) × Counts
  unfolding ends_at
  load_and_delete end [] = ([], [])
  load_and_delete end ((k, v) ∷ m) =
      let (taken, left) = load_and_delete end m in
      if ends_at end k.interval
      then ((k, to_float (v / max_uint16)) ∷ taken, left)
      else (taken, (k, v) ∷ left)
