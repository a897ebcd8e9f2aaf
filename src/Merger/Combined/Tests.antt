-- ===== src/Merger/Combined/Tests.antt =====
-- Combined metrics merged at concrete values, with room for one service.
use apm_aggregation.Base.{ℕ, ◌≤◌, ◌≡◌, ◌≢◌, some, none, List, [], ◌∷◌, arith}
use apm_aggregation.Base.Lists.{length}
use apm_aggregation.Pb
use apm_aggregation.Models.{Overflow, no_overflow}
use apm_aggregation.Models.Env.{listing}
use apm_aggregation.Models.Keys.{Limits}
use apm_aggregation.Merger.Tests.{
  behind, histogram_from, histogram_from-Represents, incoming, incoming-IsGroup, incoming_services,
  incoming_services-IsServiceGroup, incoming_spans,
}
use apm_aggregation.Merger.Overflow.{merge_overflow}
use apm_aggregation.Merger.Overflow.Joins.{Joins, merge_overflow-Joins}
use apm_aggregation.Merger.Overflow.Totals.{IsOverflowProto, transactions_in, services_in, Gains}
use apm_aggregation.Merger.Combined.{CombinedMetricsMerger}
use apm_aggregation.Merger.Combined.Services.{merge}
use apm_aggregation.Merger.Combined.Found.{size_map}
use apm_aggregation.Merger.Combined.Invariant.{Kind, service_size, total_limit}
use apm_aggregation.Merger.Combined.ServiceStep.{merger_count}
use apm_aggregation.Merger.Combined.Whole.{
  IsCombinedIn, Merged, merge-Merged, new_merger, new_merger-IsMerger, merge_all, all_count,
  merge_all-Bounded,
}

abbrev limits : Limits
limits = record {
  max_services = 1;
  max_service_instance_groups_per_service = 1;
  max_span_groups = 4;
  max_span_groups_per_service = 2;
  max_transaction_groups = 4;
  max_transaction_groups_per_service = 1;
  max_service_transaction_groups = 4;
  max_service_transaction_groups_per_service = 1;
}

abbrev overflow : Pb.Overflow ℕ
overflow = record {
  overflow_transactions = some (record { histogram = some histogram_from });
  overflow_service_transactions = none;
  overflow_spans = some (record { count = 3; sum = 4 });
  overflow_transactions_estimator = 0 ∷ 8 ∷ [];
  overflow_service_transactions_estimator = [];
  overflow_spans_estimator = 0 ∷ 9 ∷ [];
}

cons-ne-nil : (a b : ℕ) → (a ∷ b ∷ []) ≢ []
cons-ne-nil a b h = ground arith

overflow-IsOverflowProto : IsOverflowProto overflow
overflow-IsOverflowProto = record {
  transactions = histogram_from-Represents;
  services = tt;
  transactions_estimated = cons-ne-nil 0 8;
  services_estimated = tt;
  spans_estimated = cons-ne-nil 0 9;
}

-- A service of two instances, one of which has no room.
abbrev service : ℕ → Pb.KeyedServiceMetrics ℕ
service name = record {
  key = record {
    timestamp = 0;
    service_name = name ∷ [];
    service_environment = [];
    service_language_name = [];
    agent_name = [];
  };
  metrics = some (record {
    service_instance_metrics =
        record {
          key = record { global_labels_str = [] };
          metrics = some (record {
            transaction_metrics = incoming;
            service_transaction_metrics = incoming_services;
            span_metrics = incoming_spans;
          });
        }
        ∷ record {
          key = record { global_labels_str = 1 ∷ [] };
          metrics = some (record {
            transaction_metrics = incoming;
            service_transaction_metrics = [];
            span_metrics = [];
          });
        }
        ∷ [];
    overflow_groups = some overflow;
  });
}

abbrev combined : ℕ → Pb.CombinedMetrics ℕ
combined name = record {
  service_metrics = service name ∷ [];
  overflow_services = some overflow;
  overflow_service_instances_estimator = 0 ∷ 5 ∷ [];
  events_total = 3;
  youngest_event_timestamp = 12;
}

combined-IsCombinedIn : (name : ℕ) → IsCombinedIn (combined name)
combined-IsCombinedIn name = record {
  services = (
    (
      overflow-IsOverflowProto,
      (
        (incoming-IsGroup, incoming_services-IsServiceGroup, (tt, (tt, (tt, tt)))),
        ((incoming-IsGroup, tt, tt), tt),
      ),
    ),
    tt,
  );
  overflow = overflow-IsOverflowProto;
  estimated = cons-ne-nil 0 5;
}

abbrev fresh : CombinedMetricsMerger ℕ (List ℕ)
fresh = new_merger listing behind behind limits

merge-Merged_example :
    (m' : CombinedMetricsMerger ℕ (List ℕ)) × (merge listing behind behind fresh (combined 1)
      ≡ some m')
    × Merged listing fresh (combined 1) m'
merge-Merged_example =
    merge-Merged listing behind behind fresh (combined 1)
      (new_merger-IsMerger listing behind behind limits) (combined-IsCombinedIn 1)

merge_all-Bounded_example :
    (m' : CombinedMetricsMerger ℕ (List ℕ)) × (merge_all listing behind behind fresh
        (combined 1 ∷ combined 2 ∷ [])
      ≡ some m')
    × (length m'.metrics.services ≤ 1)
    × ((k : Kind) → size_map (service_size k) m'.metrics.services ≤ total_limit k limits)
    × ((k : Kind) (q : ℕ)
        → merger_count k q m'.metrics ≡ all_count k q (combined 1 ∷ combined 2 ∷ []))
merge_all-Bounded_example =
    merge_all-Bounded listing behind behind limits (combined 1 ∷ combined 2 ∷ [])
      (combined-IsCombinedIn 1, (combined-IsCombinedIn 2, tt))

merge_overflow-Joins_example :
    (o : Overflow ℕ (List ℕ)) × (merge_overflow listing behind behind
        (no_overflow ℕ (List ℕ))
        (some overflow)
      ≡ some o)
    × Gains
        (no_overflow ℕ (List ℕ))
        (λ q. transactions_in q (some overflow))
        (λ q. services_in q (some overflow))
        o
    × Joins listing (no_overflow ℕ (List ℕ)) (some overflow) o
merge_overflow-Joins_example =
    merge_overflow-Joins listing behind behind (no_overflow ℕ (List ℕ)) (some overflow)
      (record { transactions = tt; services = tt }) overflow-IsOverflowProto
