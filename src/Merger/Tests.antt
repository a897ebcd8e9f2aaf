-- ===== src/Merger/Tests.antt =====
-- The merges at concrete values, with the instance of Models/Env.
use apm_aggregation.Base.{ℕ, ◌≡◌, refl, none, some, List, [], ◌∷◌, true, arith}
use apm_aggregation.Base.Lists.{All}
use apm_aggregation.Bars.{Bar}
use apm_aggregation.Pb.{HdrHistogram, KeyedTransactionMetrics, KeyedSpanMetrics}
use apm_aggregation.Models.Env.{listing}
use apm_aggregation.Merger.Histogram.{merge_histogram}
use apm_aggregation.Merger.Histogram.Slices.{Represents}
use apm_aggregation.Merger.Histogram.Meaning.{Merges, merge_histogram-Merges}
use apm_aggregation.Merger.Groups.{
  TransactionGroups, merge_transaction_groups, SpanGroups, merge_span_groups,
}
use apm_aggregation.Merger.Groups.Spans.{Shares}
use apm_aggregation.Merger.Groups.SpanTotal.{IsSpanGroup, merge_span_groups-Keeps}
use apm_aggregation.Merger.Groups.Limits.{Charged}
use apm_aggregation.Merger.Groups.Counts.{AllGroups, sum_list, Accounts}
use apm_aggregation.Merger.Groups.ServiceTransactions.{
  IsServiceGroup, IsServiceBucket, service_count, service_overflow_count,
  merge_service_transaction_groups-Accounts,
}
use apm_aggregation.Pb.{KeyedServiceTransactionMetrics}
use apm_aggregation.Merger.Groups.{ServiceTransactionGroups, merge_service_transaction_groups}
use apm_aggregation.Merger.Groups.Transactions.{
  IsGroup, IsBucket, group_count, overflow_count, merge_transaction_groups-Accounts,
}

abbrev pub histogram : List ℕ → List ℕ → HdrHistogram
histogram bs cs = record {
  lowest_trackable_value = 1;
  highest_trackable_value = 3600000000;
  significant_figures = 2;
  counts = cs;
  buckets = bs;
}

abbrev pub bars_to : List Bar
bars_to = record { bucket = 2; count = 5 } ∷ record { bucket = 7; count = 1 } ∷ []

abbrev pub bars_from : List Bar
bars_from = record { bucket = 1; count = 4 } ∷ record { bucket = 7; count = 3 } ∷ []

abbrev pub histogram_to : HdrHistogram
histogram_to = histogram (2 ∷ 7 ∷ []) (5 ∷ 1 ∷ [])

abbrev pub histogram_from : HdrHistogram
histogram_from = histogram (1 ∷ 7 ∷ []) (4 ∷ 3 ∷ [])

pub histogram_to-Represents : Represents histogram_to bars_to
histogram_to-Represents = record {
  columns = record { buckets = refl; counts = refl };
  sorted = (omega arith, (omega arith, tt));
  ranged = ((omega arith, omega arith), ((omega arith, omega arith), tt));
}

pub histogram_from-Represents : Represents histogram_from bars_from
histogram_from-Represents = record {
  columns = record { buckets = refl; counts = refl };
  sorted = (omega arith, (omega arith, tt));
  ranged = ((omega arith, omega arith), ((omega arith, omega arith), tt));
}

abbrev pub behind : ℕ → ℕ
behind i = 99

merge_histogram-Merges_example :
    (to' : HdrHistogram) × (merge_histogram behind behind histogram_to histogram_from ≡ some to')
    × Merges histogram_to bars_to bars_from to'
merge_histogram-Merges_example =
    merge_histogram-Merges behind behind histogram_to histogram_from bars_to bars_from
      histogram_to-Represents histogram_from-Represents

-- A group whose key differs in the transaction's name only.
abbrev pub group : ℕ → HdrHistogram → KeyedTransactionMetrics
group name h = record {
  key = record {
    trace_root = true;
    container_id = [];
    kubernetes_pod_name = [];
    service_version = [];
    service_node_name = [];
    service_runtime_name = [];
    service_runtime_version = [];
    service_language_version = [];
    host_hostname = [];
    host_name = [];
    host_os_platform = [];
    event_outcome = [];
    transaction_name = name ∷ [];
    transaction_type = [];
    transaction_result = [];
    faas_coldstart = 0;
    faas_id = [];
    faas_name = [];
    faas_version = [];
    faas_trigger_type = [];
    cloud_provider = [];
    cloud_region = [];
    cloud_availability_zone = [];
    cloud_service_name = [];
    cloud_account_id = [];
    cloud_account_name = [];
    cloud_machine_type = [];
    cloud_project_id = [];
    cloud_project_name = [];
  };
  metrics = some (record { histogram = some h });
}

-- No group yet, room for one.
abbrev groups : TransactionGroups listing behind behind []
groups = record {
  to = [];
  per_svc = record { counter = 0; limit = 1 };
  global = record { counter = 4; limit = 8 };
  overflow = record { metrics = none; estimator = none };
}

abbrev pub incoming : List KeyedTransactionMetrics
incoming = group 1 histogram_to ∷ group 2 histogram_from ∷ group 1 histogram_from ∷ []

pub incoming-IsGroup : All IsGroup incoming
incoming-IsGroup = (
  record { has_metrics = tt; histogram = histogram_to-Represents },
  (
    record { has_metrics = tt; histogram = histogram_from-Represents },
    (record { has_metrics = tt; histogram = histogram_from-Represents }, tt),
  ),
)

merge_transaction_groups-Accounts_example :
    (st' : TransactionGroups listing behind behind []) × (merge_transaction_groups listing behind
        behind [] groups incoming
      ≡ some st')
    × Charged groups st'
    × ((q : ℕ)
        → Accounts IsGroup IsBucket
            (group_count q)
            (overflow_count q)
            groups
            (sum_list (group_count q) incoming)
            st')
merge_transaction_groups-Accounts_example =
    merge_transaction_groups-Accounts listing behind behind [] groups incoming refl tt tt
      incoming-IsGroup

abbrev pub service_group : ℕ → HdrHistogram → KeyedServiceTransactionMetrics ℕ
service_group type h = record {
  key = record { transaction_type = type ∷ [] };
  metrics = some (record { histogram = some h; failure_count = 1; success_count = 2 });
}

abbrev service_groups : ServiceTransactionGroups listing behind behind []
service_groups = record {
  to = [];
  per_svc = record { counter = 0; limit = 1 };
  global = record { counter = 4; limit = 8 };
  overflow = record { metrics = none; estimator = none };
}

abbrev pub incoming_services : List (KeyedServiceTransactionMetrics ℕ)
incoming_services = service_group 1 histogram_to ∷ service_group 2 histogram_from ∷ []

pub incoming_services-IsServiceGroup : All IsServiceGroup incoming_services
incoming_services-IsServiceGroup = (
  record { has_metrics = tt; histogram = histogram_to-Represents },
  (record { has_metrics = tt; histogram = histogram_from-Represents }, tt),
)

merge_service_transaction_groups-Accounts_example :
    (st' : ServiceTransactionGroups listing behind behind []) × (merge_service_transaction_groups
        listing behind behind [] service_groups incoming_services
      ≡ some st')
    × Charged service_groups st'
    × ((q : ℕ)
        → Accounts IsServiceGroup IsServiceBucket
            (service_count q)
            (service_overflow_count q)
            service_groups
            (sum_list (service_count q) incoming_services)
            st')
merge_service_transaction_groups-Accounts_example =
    merge_service_transaction_groups-Accounts listing behind behind [] service_groups
      incoming_services refl tt tt incoming_services-IsServiceGroup

abbrev pub span : ℕ → KeyedSpanMetrics ℕ
span name = record {
  key = record {
    span_name = name ∷ [];
    outcome = [];
    target_type = [];
    target_name = [];
    resource = [];
  };
  metrics = some (record { count = 1; sum = 10 });
}

-- Room for two, half of which names may take.
abbrev spans : SpanGroups listing []
spans = record {
  to = [];
  per_svc = record { counter = 0; limit = 2 };
  global = record { counter = 4; limit = 8 };
  overflow = record { metrics = none; estimator = none };
}

abbrev pub incoming_spans : List (KeyedSpanMetrics ℕ)
incoming_spans = span 1 ∷ span 2 ∷ span 3 ∷ []

merge_span_groups-Keeps_example :
    (st' : SpanGroups listing []) × (merge_span_groups listing [] spans incoming_spans ≡ some st')
    × Charged spans st'
    × AllGroups IsSpanGroup st'.to
    × Shares spans st'
merge_span_groups-Keeps_example =
    merge_span_groups-Keeps listing [] spans incoming_spans refl tt (tt, (tt, (tt, tt)))
