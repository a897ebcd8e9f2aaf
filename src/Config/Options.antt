-- ===== src/Config/Options.antt =====
-- `NewConfig`, the options and the defaults, aggregators/config.go.
pub mod LastGiven
use apm_aggregation.Base.{ℕ, ◌≡◌, refl, ◌≢◌, Bool, false, Option, some, List, [], ◌∷◌, arith}
use apm_aggregation.Base.Lists.{All}
use apm_aggregation.Base.Int.{ℤ, pos}
use apm_aggregation.Pb.{Text}
use apm_aggregation.Models.Keys.{Limits}
use apm_aggregation.Config.{Kinds, Config, Outcome, valid, is_empty, validate_cfg}

-- The values of the defaults that come from elsewhere; the processor prints the key.
pub record Defaults (k : Kinds) : Type 0 where
  pub stdout_processor : k.processor
  pub meter : k.meter
  pub tracer : k.tracer
  pub id_to_kvs : k.id_to_kvs
  pub logger : k.logger

-- The limits that are not set are zero.
abbrev no_limits : Limits
no_limits = record {
  max_services = 0;
  max_service_instance_groups_per_service = 0;
  max_span_groups = 0;
  max_span_groups_per_service = 0;
  max_transaction_groups = 0;
  max_transaction_groups_per_service = 0;
  max_service_transaction_groups = 0;
  max_service_transaction_groups_per_service = 0;
}

-- `Option` of the code.
abbrev pub ConfigOption : Kinds → Type 0
ConfigOption k = Config k → Config k

module _ {k : Kinds} where
  unfoldable pub with_data_dir : Text → ConfigOption k
  with_data_dir data_dir c = record c { data_dir = data_dir }

  unfoldable pub with_limits : Limits → ConfigOption k
  with_limits limits c = record c { limits = limits }

  unfoldable pub with_processor : Option k.processor → ConfigOption k
  with_processor processor c = record c { processor = processor }

  unfoldable pub with_partitions : ℕ → ConfigOption k
  with_partitions n c = record c { partitions = n }

  unfoldable pub with_aggregation_intervals : List ℤ → ConfigOption k
  with_aggregation_intervals agg_ivls c = record c { aggregation_intervals = agg_ivls }

  unfoldable pub with_harvest_delay : ℤ → ConfigOption k
  with_harvest_delay delay c = record c { harvest_delay = delay }

  unfoldable pub with_meter : k.meter → ConfigOption k
  with_meter meter c = record c { meter = meter }

  unfoldable pub with_tracer : k.tracer → ConfigOption k
  with_tracer tracer c = record c { tracer = tracer }

  unfoldable pub with_combined_metrics_id_to_kvs : k.id_to_kvs → ConfigOption k
  with_combined_metrics_id_to_kvs f c = record c { combined_metrics_id_to_kvs = f }

  unfoldable pub with_logger : k.logger → ConfigOption k
  with_logger logger c = record c { logger = logger }

  unfoldable pub with_in_memory : Bool → ConfigOption k
  with_in_memory enabled c = record c { in_memory = enabled }

  unfoldable pub default_cfg : Defaults k → Config k
  default_cfg d = record {
    data_dir = b'/' ∷ b't' ∷ b'm' ∷ b'p' ∷ [];
    limits = no_limits;
    processor = some d.stdout_processor;
    partitions = 1;
    aggregation_intervals = pos 60000000000 ∷ [];
    harvest_delay = pos 0;
    combined_metrics_id_to_kvs = d.id_to_kvs;
    in_memory = false;
    meter = d.meter;
    tracer = d.tracer;
    logger = d.logger;
  }

  unfoldable pub apply_options : List (ConfigOption k) → Config k → Config k
  apply_options [] cfg = cfg
  apply_options (opt ∷ opts) cfg = apply_options opts (opt cfg)

  unfoldable pub new_config : Defaults k → List (ConfigOption k) → Config k × Outcome
  unfolding default_cfg apply_options validate_cfg
  new_config d opts = let cfg = apply_options opts (default_cfg d) in (cfg, validate_cfg cfg)
