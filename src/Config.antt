-- ===== src/Config.antt =====
-- The configuration and its validation, aggregators/config.go. Durations are nanoseconds, an int64
-- each. Processors, meters, tracers, functions of IDs and loggers are values of types of their own,
-- and a nil processor is `none`.
pub mod Options
pub mod Valid
mod Tests
use apm_aggregation.Base.{
  ℕ, zero, suc, ◌+◌, ◌*◌, ◌%◌, Bool, true, false, not, Option, none, some, List, [], ◌∷◌,
}
use apm_aggregation.Base.Tests.{◌==◌, if◌then◌else◌}
use apm_aggregation.Base.Int.{ℤ, pos, ltb_ℤ, magnitude}
use apm_aggregation.Pb.{Text}
use apm_aggregation.Models.Keys.{Limits}

-- The types that the code takes from elsewhere.
pub record Kinds : Type 1 where
  pub processor : Type 0
  pub meter : Type 0
  pub tracer : Type 0
  pub id_to_kvs : Type 0
  pub logger : Type 0

pub record Config (k : Kinds) : Type 0 where
  pub data_dir : Text
  pub limits : Limits
  pub processor : Option k.processor
  pub partitions : ℕ
  pub aggregation_intervals : List ℤ
  pub harvest_delay : ℤ
  pub combined_metrics_id_to_kvs : k.id_to_kvs
  pub in_memory : Bool
  pub meter : k.meter
  pub tracer : k.tracer
  pub logger : k.logger

-- The errors, in the order of the checks.
pub data Problem : Type 0 where
  data_directory_required : Problem
  processor_required : Problem
  partitions_required : Problem
  interval_required : Problem
  not_ascending : Problem
  not_a_factor : Problem
  too_short : Problem
  too_long : Problem

-- `panics` is a remainder by zero.
pub data Outcome : Type 0 where
  valid : Outcome
  invalid : Problem → Outcome
  panics : Outcome

abbrev pub second : ℤ
second = pos 1000000000

abbrev pub eighteen_hours : ℤ
eighteen_hours = pos 64800000000000

-- `sort.SliceIsSorted`: no element is less than the one before it.
unfoldable pub is_ascending : ℤ → List ℤ → Bool
is_ascending x [] = true
is_ascending x (y ∷ ys) = let rest = is_ascending y ys in if ltb_ℤ y x then false else rest

-- The element at `len - 1`.
abbrev pub last_of : ℤ → List ℤ → ℤ
last_of x [] = x
last_of x (y ∷ ys) = last_of y ys

-- Of int64 values: the remainder is 0 if the magnitudes divide.
unfoldable pub check_factors : ℤ → List ℤ → Outcome
check_factors lowest [] = valid
check_factors lowest (ivl ∷ ivls) =
    let rest = check_factors lowest ivls in
    if magnitude lowest == 0
    then panics
    else (if not (magnitude ivl % magnitude lowest == 0) then invalid not_a_factor else rest)

abbrev pub check_range : ℤ → ℤ → Outcome
check_range lowest highest =
    if ltb_ℤ lowest second
    then invalid too_short
    else (if ltb_ℤ eighteen_hours highest then invalid too_long else valid)

abbrev pub and_then : Outcome → Outcome → Outcome
and_then valid o = o
and_then (invalid p) o = invalid p
and_then panics o = panics

unfoldable pub check_intervals : List ℤ → Outcome
unfolding is_ascending check_factors
check_intervals [] = invalid interval_required
check_intervals (lowest ∷ ivls) =
    if not (is_ascending lowest ivls)
    then invalid not_ascending
    else and_then (check_factors lowest ivls) (check_range lowest (last_of lowest ivls))

abbrev is_empty : Text → Bool
is_empty [] = true
is_empty (b ∷ bs) = false

abbrev is_nil : {P : Type 0} → Option P → Bool
is_nil none = true
is_nil (some p) = false

module _ {k : Kinds} where
  unfoldable pub validate_cfg : Config k → Outcome
  unfolding check_intervals
  validate_cfg cfg =
      if is_empty cfg.data_dir
      then invalid data_directory_required
      else (if is_nil cfg.processor
          then invalid processor_required
          else (if cfg.partitions == 0
              then invalid partitions_required
              else check_intervals cfg.aggregation_intervals))
