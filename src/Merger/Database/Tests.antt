-- ===== src/Merger/Database/Tests.antt =====
-- Values of a database merged at concrete values: the messages themselves stand for the bytes.
use apm_aggregation.Base.{ℕ, ◌≡◌, refl, sym, some, none, true, List, [], ◌∷◌}
use apm_aggregation.Models.Env.{listing}
use apm_aggregation.Merger.Tests.{behind, histogram_from, histogram_from-Represents}
use apm_aggregation.Merger.Combined.{CombinedMetricsMerger}
use apm_aggregation.Models.Keys.{Limits}
use apm_aggregation.Merger.Combined.Invariant.{Kind}
use apm_aggregation.Merger.Combined.ServiceStep.{IsMerger, merger_count}
use apm_aggregation.Merger.Combined.Whole.{new_merger, new_merger-IsMerger}
use apm_aggregation.Codec.Metrics.{combined_metrics_to_proto}
use apm_aggregation.Codec.Metrics.Written.{IsCounted}
use apm_aggregation.Merger.Database.{new_value_merger, merged, finish, finish-new_value_merger}

abbrev limits : Limits
limits = record {
  max_services = 2;
  max_service_instance_groups_per_service = 2;
  max_span_groups = 2;
  max_span_groups_per_service = 2;
  max_transaction_groups = 2;
  max_transaction_groups_per_service = 2;
  max_service_transaction_groups = 2;
  max_service_transaction_groups_per_service = 2;
}

abbrev fresh : CombinedMetricsMerger ℕ (List ℕ)
fresh = new_merger listing behind behind limits

-- A merger with an overflow of services.
abbrev overflowed : CombinedMetricsMerger ℕ (List ℕ)
overflowed = record fresh {
  metrics = record (fresh.metrics) {
    overflow_services = record {
      overflow_transaction = record {
        metrics = some (record { histogram = some histogram_from });
        estimator = some (8 ∷ []);
      };
      overflow_service_transaction = record { metrics = none; estimator = none };
      overflow_span = record {
        metrics = some (record { count = 3; sum = 4 });
        estimator = some (9 ∷ []);
      };
    };
    overflow_service_instances_estimator = some (5 ∷ []);
  };
}

overflowed-IsMerger : IsMerger overflowed
unfolding new_merger
overflowed-IsMerger =
    let v = new_merger-IsMerger listing behind behind limits in
    record {
      services = v.services;
      room = v.room;
      overflow = record { transactions = histogram_from-Represents; services = tt };
      constrained = v.constrained;
      totals = v.totals;
    }

overflowed-IsCounted : IsCounted overflowed.metrics
unfolding new_merger
overflowed-IsCounted = record {
  services = tt;
  overflow = record { transactions = tt; services = refl; spans = tt };
  estimated = tt;
}

finish-new_value_merger_example :
    (m' : CombinedMetricsMerger ℕ (List ℕ)) × (new_value_merger listing behind behind some limits
        (combined_metrics_to_proto listing overflowed.metrics)
      ≡ merged m')
    × IsMerger m'
    × ((k : Kind) (q : ℕ) → merger_count k q m'.metrics ≡ merger_count k q overflowed.metrics)
unfolding finish
finish-new_value_merger_example =
    finish-new_value_merger listing behind behind some some (λ pb bytes h. sym h) overflowed limits
      true (combined_metrics_to_proto listing overflowed.metrics) overflowed-IsMerger
      overflowed-IsCounted refl
