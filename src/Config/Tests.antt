-- ===== src/Config/Tests.antt =====
-- The configuration at concrete values.
use apm_aggregation.Base.{ℕ, ◌≡◌, ◌≢◌, ◌↔◌, refl, false, map, true, List, [], ◌∷◌, arith}
use apm_aggregation.Base.Int.{ℤ, pos}
use apm_aggregation.Config.{
  Kinds, Config, second, validate_cfg, check_intervals, valid, panics, is_empty, is_nil,
}
use apm_aggregation.Config.Options.{Defaults, default_cfg, new_config}
use apm_aggregation.Config.Options.LastGiven.{
  Given, partitions, intervals, in_memory, option_of, described, new_config-described,
}
use apm_aggregation.Config.Valid.{IsValid, validate_cfg-IsValid, ZeroFirst, validate_cfg-panics_iff}

-- Numbers name the values from elsewhere.
abbrev numbers : Kinds
numbers = record { processor = ℕ; meter = ℕ; tracer = ℕ; id_to_kvs = ℕ; logger = ℕ }

abbrev defaults : Defaults numbers
defaults = record { stdout_processor = 1; meter = 2; tracer = 3; id_to_kvs = 4; logger = 5 }

abbrev with_intervals : List ℤ → Config numbers
with_intervals ivls = record (default_cfg defaults) { aggregation_intervals = ivls }

-- A minute, ten and sixty.
abbrev minutes : Config numbers
minutes = with_intervals (pos 60000000000 ∷ pos 600000000000 ∷ pos 3600000000000 ∷ [])

minutes_valid : validate_cfg minutes ≡ valid
unfolding validate_cfg default_cfg
minutes_valid = refl

validate_cfg-IsValid_example : IsValid minutes
validate_cfg-IsValid_example = validate_cfg-IsValid minutes minutes_valid

abbrev zero_first : Config numbers
zero_first = with_intervals (pos 0 ∷ second ∷ [])

validate_cfg-panics_iff_example : (validate_cfg zero_first ≡ panics) ↔ (
    (is_empty zero_first.data_dir ≡ false)
    × (is_nil zero_first.processor ≡ false)
    × (zero_first.partitions ≢ 0)
    × ZeroFirst zero_first.aggregation_intervals)
validate_cfg-panics_iff_example = validate_cfg-panics_iff zero_first

-- The second number of partitions counts.
abbrev options : List (Given numbers)
options = partitions 7 ∷ intervals (second ∷ []) ∷ in_memory true ∷ partitions 3 ∷ []

second_valid : check_intervals (second ∷ []) ≡ valid
unfolding check_intervals
second_valid = refl

new_config-described_example :
    ((new_config defaults (map option_of options)).0 ≡ described options (default_cfg defaults))
    × ((new_config defaults (map option_of options)).1 ≡ valid)
new_config-described_example =
    new_config-described defaults options (omega arith, (second_valid, (tt, (omega arith, tt))))
