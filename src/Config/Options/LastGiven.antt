-- ===== src/Config/Options/LastGiven.antt =====
-- `NewConfig` of aggregators/config.go against a description of its result: each field has the value
-- that its option was given last, or the default.
use apm_aggregation.Base.{
  ℕ, ◌≡◌, refl, ◌∙◌, ◌≢◌, Bool, false, Option, none, some, List, [], ◌∷◌, map, arith,
}
use apm_aggregation.Base.Lists.{All}
use apm_aggregation.Base.Int.{ℤ}
use apm_aggregation.Pb.{Text}
use apm_aggregation.Models.Keys.{Limits}
use apm_aggregation.Config.{Kinds, Config, valid, is_empty, is_nil, check_intervals, validate_cfg}
use apm_aggregation.Config.Options.{
  Defaults, ConfigOption, with_data_dir, with_limits, with_processor, with_partitions,
  with_aggregation_intervals, with_harvest_delay, with_meter, with_tracer,
  with_combined_metrics_id_to_kvs, with_logger, with_in_memory, default_cfg, apply_options,
  new_config,
}

-- A call of an option, by the value it is given.
pub data Given (k : Kinds) : Type 0 where
  data_dir : Text → Given k
  limits : Limits → Given k
  processor : Option k.processor → Given k
  partitions : ℕ → Given k
  intervals : List ℤ → Given k
  delay : ℤ → Given k
  meter : k.meter → Given k
  tracer : k.tracer → Given k
  id_to_kvs : k.id_to_kvs → Given k
  logger : k.logger → Given k
  in_memory : Bool → Given k

abbrev or_else {ℓ} : {A : Type ℓ} → Option A → A → A
or_else none a = a
or_else (some b) a = b

-- The last value that `get` finds, or the first one given.
abbrev pub last_given {ℓ κ} : {A : Type ℓ} {G : Type κ} → (G → Option A) → List G → A → A
last_given get [] a = a
last_given get (g ∷ gs) a = last_given get gs (or_else (get g) a)

module _ {k : Kinds} where
  abbrev pub option_of : Given k → ConfigOption k
  option_of (data_dir x) = with_data_dir x
  option_of (limits x) = with_limits x
  option_of (processor x) = with_processor x
  option_of (partitions x) = with_partitions x
  option_of (intervals x) = with_aggregation_intervals x
  option_of (delay x) = with_harvest_delay x
  option_of (meter x) = with_meter x
  option_of (tracer x) = with_tracer x
  option_of (id_to_kvs x) = with_combined_metrics_id_to_kvs x
  option_of (logger x) = with_logger x
  option_of (in_memory x) = with_in_memory x

  abbrev pub data_dir_in : Given k → Option Text
  data_dir_in (data_dir x) = some x
  data_dir_in _ = none

  abbrev pub limits_in : Given k → Option Limits
  limits_in (limits x) = some x
  limits_in _ = none

  abbrev pub processor_in : Given k → Option (Option k.processor)
  processor_in (processor x) = some x
  processor_in _ = none

  abbrev pub partitions_in : Given k → Option ℕ
  partitions_in (partitions x) = some x
  partitions_in _ = none

  abbrev pub intervals_in : Given k → Option (List ℤ)
  intervals_in (intervals x) = some x
  intervals_in _ = none

  abbrev pub delay_in : Given k → Option ℤ
  delay_in (delay x) = some x
  delay_in _ = none

  abbrev pub meter_in : Given k → Option k.meter
  meter_in (meter x) = some x
  meter_in _ = none

  abbrev pub tracer_in : Given k → Option k.tracer
  tracer_in (tracer x) = some x
  tracer_in _ = none

  abbrev pub id_to_kvs_in : Given k → Option k.id_to_kvs
  id_to_kvs_in (id_to_kvs x) = some x
  id_to_kvs_in _ = none

  abbrev pub logger_in : Given k → Option k.logger
  logger_in (logger x) = some x
  logger_in _ = none

  abbrev pub in_memory_in : Given k → Option Bool
  in_memory_in (in_memory x) = some x
  in_memory_in _ = none

  -- What the options leave of a configuration.
  abbrev pub described : List (Given k) → Config k → Config k
  described gs c = record {
    data_dir = last_given data_dir_in gs c.data_dir;
    limits = last_given limits_in gs c.limits;
    processor = last_given processor_in gs c.processor;
    partitions = last_given partitions_in gs c.partitions;
    aggregation_intervals = last_given intervals_in gs c.aggregation_intervals;
    harvest_delay = last_given delay_in gs c.harvest_delay;
    meter = last_given meter_in gs c.meter;
    tracer = last_given tracer_in gs c.tracer;
    combined_metrics_id_to_kvs = last_given id_to_kvs_in gs c.combined_metrics_id_to_kvs;
    logger = last_given logger_in gs c.logger;
    in_memory = last_given in_memory_in gs c.in_memory;
  }

  -- A value that no configuration is refused for: a directory that is not empty, a processor that is
  -- not nil, partitions other than 0, and intervals that pass their checks.
  abbrev pub IsHarmless : Given k → Type 0
  IsHarmless (data_dir x) = is_empty x ≡ false
  IsHarmless (processor x) = is_nil x ≡ false
  IsHarmless (partitions x) = x ≢ 0
  IsHarmless (intervals x) = check_intervals x ≡ valid
  IsHarmless _ = Unit {0}

  described-option :
      (g : Given k) (gs : List (Given k)) (c : Config k)
      → described gs (option_of g c) ≡ described (g ∷ gs) c
  unfolding with_data_dir with_limits with_processor with_partitions with_aggregation_intervals
      with_harvest_delay with_meter with_tracer with_combined_metrics_id_to_kvs with_logger
      with_in_memory
  described-option (data_dir x) gs c = refl
  described-option (limits x) gs c = refl
  described-option (processor x) gs c = refl
  described-option (partitions x) gs c = refl
  described-option (intervals x) gs c = refl
  described-option (delay x) gs c = refl
  described-option (meter x) gs c = refl
  described-option (tracer x) gs c = refl
  described-option (id_to_kvs x) gs c = refl
  described-option (logger x) gs c = refl
  described-option (in_memory x) gs c = refl

  apply_options-described :
      (gs : List (Given k)) (c : Config k) → apply_options (map option_of gs) c ≡ described gs c
  unfolding apply_options
  apply_options-described [] c = refl
  apply_options-described (g ∷ gs) c =
      apply_options-described gs (option_of g c) ∙ described-option g gs c

  harmless-valid :
      (g : Given k) (c : Config k)
      → IsHarmless g
      → validate_cfg c ≡ valid
      → validate_cfg (option_of g c) ≡ valid
  unfolding validate_cfg with_data_dir with_limits with_processor with_partitions
      with_aggregation_intervals with_harvest_delay with_meter with_tracer
      with_combined_metrics_id_to_kvs with_logger with_in_memory
  harmless-valid (data_dir x) c e h = ground arith
  harmless-valid (limits x) c e h = h
  harmless-valid (processor x) c e h = ground arith
  harmless-valid (partitions x) c e h = ground arith
  harmless-valid (intervals x) c e h = ground arith
  harmless-valid (delay x) c e h = h
  harmless-valid (meter x) c e h = h
  harmless-valid (tracer x) c e h = h
  harmless-valid (id_to_kvs x) c e h = h
  harmless-valid (logger x) c e h = h
  harmless-valid (in_memory x) c e h = h

  apply_options-valid :
      (gs : List (Given k)) (c : Config k)
      → All IsHarmless gs
      → validate_cfg c ≡ valid
      → validate_cfg (apply_options (map option_of gs) c) ≡ valid
  unfolding apply_options
  apply_options-valid [] c a h = h
  apply_options-valid (g ∷ gs) c a h =
      apply_options-valid gs (option_of g c) a.1 (harmless-valid g c a.0 h)

  default_cfg-valid : (d : Defaults k) → validate_cfg (default_cfg d) ≡ valid
  unfolding default_cfg validate_cfg
  default_cfg-valid d = refl

  -- `NewConfig` accepts any options, in any order and repeated or not, that set a directory that is not
  -- empty, a processor that is not nil, partitions other than 0, intervals that pass their checks, and
  -- any other field; and each of the eleven fields of the result has the value that its own option
  -- was given last, or the default if it was not given.
  pub new_config-described :
      (d : Defaults k) (gs : List (Given k))
      → All IsHarmless gs
      → ((new_config d (map option_of gs)).0 ≡ described gs (default_cfg d))
        × ((new_config d (map option_of gs)).1 ≡ valid)
  unfolding new_config
  new_config-described d gs a = (
    apply_options-described gs (default_cfg d),
    apply_options-valid gs (default_cfg d) a (default_cfg-valid d),
  )
