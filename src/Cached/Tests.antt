-- ===== src/Cached/Tests.antt =====
-- The cached events at concrete values: two keys, and three calls.
use apm_aggregation.Base.{ℕ, ◌*◌, ◌%◌, ◌^◌, ◌≤◌, ◌≡◌, List, [], ◌∷◌}
use apm_aggregation.Base.Lists.{length}
use apm_aggregation.Base.Words.{add64}
use apm_aggregation.Cached.{CachedEventsStatsKey, Counts, Call}
use apm_aggregation.Cached.Interleaved.{Steps, count_of}
use apm_aggregation.Cached.Runs.{starting, sum_at, Finishes, starting-Finishes, run-sum_at}
use apm_aggregation.Cached.Harvest.{Takes, load_and_delete-Takes}

abbrev key : ℕ → CachedEventsStatsKey
key interval = record { interval = interval; id = 7 ∷ [] }

abbrev cached : Counts
cached = (key 60, 131072) ∷ (key 50, 65535) ∷ []

abbrev calls : List (CachedEventsStatsKey × ℕ)
calls = (key 60, 32768) ∷ (key 60, 65535) ∷ (key 50, 1) ∷ []

starting-Finishes_example :
    Finishes cached (starting calls)
    × ((n : ℕ) (m' : Counts) (cs : List Call)
        → Steps n cached (starting calls) m' cs
        → n ≤ 3 * length calls)
starting-Finishes_example = starting-Finishes cached calls

abbrev ended : Finishes cached (starting calls)
ended = (starting-Finishes cached calls).0

run-sum_at_example :
    count_of (key 60) ended.counts % 2 ^ 64
    ≡ add64 (count_of (key 60) cached) (sum_at (key 60) calls)
run-sum_at_example = run-sum_at calls ended.run ended.ended (key 60)

load_and_delete-Takes_example : Takes (λ c. c) 120 cached (key 60)
load_and_delete-Takes_example = load_and_delete-Takes (λ c. c) 120 cached (key 60)
