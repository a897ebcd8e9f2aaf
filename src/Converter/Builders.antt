-- ===== src/Converter/Builders.antt =====
-- `eventMetricsBuilder` and `processEvent` of aggregators/converter.go. `none` is a panic.
use apm_aggregation.Base.{
  ℕ, zero, suc, Bool, true, false, ◌&&◌, ◌||◌, Option, none, some, List, [], ◌∷◌, ◌++◌,
}
use apm_aggregation.Base.Tests.{◌==◌, if◌then◌else◌}
use apm_aggregation.Base.Lists.{length}
use apm_aggregation.Base.Panic.{◌>>=◌}
use apm_aggregation.Base.Search.{Slices}
use apm_aggregation.Bars.{Bar}
use apm_aggregation.Pb.{
  Text, HdrHistogram, TransactionAggregationKey, ServiceTransactionAggregationKey,
  SpanAggregationKey, SpanMetrics,
}
use apm_aggregation.Models.Env.{Env}
use apm_aggregation.Hash.{hash_transaction_key, hash_service_transaction_key, hash_span_key}
use apm_aggregation.Hdr.Representation.{
  HistogramRepresentation, new, Recorded, too_large, panicked, recorded, record_duration,
}
use apm_aggregation.Codec.Histograms.{set_histogram_proto}
use apm_aggregation.Converter.Partitions.{EventMetricsBuilder, get}
use apm_aggregation.Converter.Event.{
  EventType, transaction_event, span_event, other_event, DroppedSpanStats, ApmEvent, Floats,
  is_empty, set_transaction_key, set_service_transaction_key, set_span_key, set_span_metrics,
  set_dropped_span_stats_key, set_dropped_span_stats_metrics,
}

-- What a builder holds for its partition. `histogram` is the one histogram that transaction and service
-- transaction metrics point to. A transaction metric has its key, its histogram and its place in the
-- slice at once, and a service transaction metric its counts too.
pub record BuilderMetrics (F : Type 0) : Type 0 where
  pub histogram : HdrHistogram
  pub transaction : Option TransactionAggregationKey
  pub service_transaction : Option (ServiceTransactionAggregationKey × F × F)
  pub spans : List (SpanAggregationKey × SpanMetrics F)

abbrev pub max_spans : ℕ
max_spans = 128

-- `getEventMetricsBuilder`: a builder of the pool keeps an old histogram, which nothing points to.
abbrev pub get_event_metrics_builder : {F : Type 0} → HdrHistogram → BuilderMetrics F
get_event_metrics_builder old = record {
  histogram = old;
  transaction = none;
  service_transaction = none;
  spans = [];
}

abbrev pub Builders : Type 0 → Type 0
Builders F = List (EventMetricsBuilder (BuilderMetrics F))

-- A write to the builder at a place.
unfoldable pub update :
    {F : Type 0} → (BuilderMetrics F → BuilderMetrics F) → ℕ → Builders F → Builders F
update f i [] = []
update f zero (b ∷ bs) = record b { metrics = f b.metrics } ∷ bs
update f (suc i) (b ∷ bs) = b ∷ update f i bs

-- The error of a value that is too large is dropped, and nothing is recorded.
abbrev pub recorded_or_new : Recorded → Option HistogramRepresentation
recorded_or_new too_large = some new
recorded_or_new panicked = none
recorded_or_new (recorded h) = some h

-- `failure` and `success`.
abbrev pub failure : Text
failure = b'f' ∷ b'a' ∷ b'i' ∷ b'l' ∷ b'u' ∷ b'r' ∷ b'e' ∷ []

abbrev pub success : Text
success = b's' ∷ b'u' ∷ b'c' ∷ b'c' ∷ b'e' ∷ b's' ∷ b's' ∷ []

-- Comparison of strings.
unfoldable pub same_text : Text → Text → Bool
same_text [] [] = true
same_text [] (d ∷ ds) = false
same_text (c ∷ cs) [] = false
same_text (c ∷ cs) (d ∷ ds) = c == d && same_text cs ds

module _ {F : Type 0} (f : Floats F) where
  unfoldable pub single_histogram : Slices Bar → ℕ → F → Option HdrHistogram
  unfolding record_duration new set_histogram_proto
  single_histogram lib duration count = do
    hdr ← recorded_or_new (record_duration lib f.scaled new duration count)
    some (set_histogram_proto hdr)

  -- The failure and the success count.
  unfoldable pub outcome_counts : Text → F → F × F
  unfolding same_text
  outcome_counts outcome count =
      if same_text outcome failure
      then (count, f.zero)
      else (if same_text outcome success then (f.zero, count) else (f.zero, f.zero))

-- The histogram that is recorded is not used if the builder has one: the
-- transaction metric is in the same partition.
abbrev pub shared : Option TransactionAggregationKey → HdrHistogram → HdrHistogram → HdrHistogram
shared none h old = h
shared (some key) h old = old

module _ {F : Type 0} where
  abbrev pub with_transaction :
      TransactionAggregationKey → HdrHistogram → BuilderMetrics F → BuilderMetrics F
  with_transaction key h mb = record mb { histogram = h; transaction = some key }

  abbrev pub with_service_transaction :
      ServiceTransactionAggregationKey × F × F → HdrHistogram → BuilderMetrics F → BuilderMetrics F
  with_service_transaction m h mb = record mb {
    histogram = shared mb.transaction h mb.histogram;
    service_transaction = some m;
  }

  -- Past the array's end the entry is dropped.
  abbrev pub with_dropped : SpanAggregationKey × SpanMetrics F → BuilderMetrics F → BuilderMetrics F
  with_dropped m mb =
      if length mb.spans == max_spans then mb else record mb { spans = mb.spans ++ m ∷ [] }

  abbrev pub with_span : SpanAggregationKey × SpanMetrics F → BuilderMetrics F → BuilderMetrics F
  with_span m mb = record mb { spans = mb.spans ++ m ∷ [] }

-- The partitioned builder: the hash of the service instance, the number of partitions and the
-- histogram that its builders have from earlier events.
pub record Partitioned (D : Type 0) : Type 0 where
  pub service_instance_hash : D
  pub partitions : ℕ
  pub old_histogram : HdrHistogram

module _ {F S D : Type 0} (env : Env F S D) (f : Floats F) (lib : Slices Bar)
    (p : Partitioned D) where
  abbrev pub fresh : BuilderMetrics F
  fresh = get_event_metrics_builder p.old_histogram

  abbrev pub get_for : D → Builders F → Option (ℕ × Builders F)
  get_for h bs = get fresh p.partitions (env.sum64 h) bs

  unfoldable pub add_transaction_metrics : ApmEvent F → F → ℕ → Builders F → Option (Builders F)
  unfolding get update single_histogram hash_transaction_key set_transaction_key
  add_transaction_metrics e count duration bs = do
    let key = set_transaction_key e
    at ← get_for (hash_transaction_key env p.service_instance_hash key) bs
    h ← single_histogram f lib duration count
    some (update (with_transaction key h) at.0 at.1)

  unfoldable pub add_service_transaction_metrics :
      ApmEvent F → F → ℕ → Builders F → Option (Builders F)
  unfolding get update single_histogram outcome_counts hash_service_transaction_key
      set_service_transaction_key
  add_service_transaction_metrics e count duration bs = do
    let key = set_service_transaction_key e
    let (failures, successes) = outcome_counts f e.outcome count
    at ← get_for (hash_service_transaction_key env p.service_instance_hash key) bs
    h ← single_histogram f lib duration count
    some (update (with_service_transaction (key, failures, successes) h) at.0 at.1)

  unfoldable pub add_dropped_span_stats_metrics :
      DroppedSpanStats → F → Builders F → Option (Builders F)
  unfolding get update hash_span_key set_dropped_span_stats_key set_dropped_span_stats_metrics
  add_dropped_span_stats_metrics dss rep_count bs = do
    let key = set_dropped_span_stats_key dss
    at ← get_for (hash_span_key env p.service_instance_hash key) bs
    some (update (with_dropped (key, set_dropped_span_stats_metrics f dss rep_count)) at.0 at.1)

  unfoldable pub add_all_dropped : List DroppedSpanStats → F → Builders F → Option (Builders F)
  unfolding add_dropped_span_stats_metrics
  add_all_dropped [] rep_count bs = some bs
  add_all_dropped (dss ∷ rest) rep_count bs = do
    bs' ← add_dropped_span_stats_metrics dss rep_count bs
    add_all_dropped rest rep_count bs'

  -- A span event has no other spans, so that the array has room.
  unfoldable pub add_span_metrics : ApmEvent F → F → Builders F → Option (Builders F)
  unfolding get update hash_span_key set_span_key set_span_metrics
  add_span_metrics e rep_count bs = do
    let key = set_span_key e
    at ← get_for (hash_span_key env p.service_instance_hash key) bs
    some (update (with_span (key, set_span_metrics f e rep_count)) at.0 at.1)

  unfoldable pub add_service_summary_metrics : Builders F → Option (Builders F)
  unfolding get
  add_service_summary_metrics bs = do at ← get_for p.service_instance_hash bs; some at.1

  abbrev pub no_target : ApmEvent F → Bool
  no_target e = elim e.service_target [
    | none ↦ is_empty e.span_destination_service_resource
    | some t ↦ false
  ]

  abbrev pub add_both : ApmEvent F → F → Builders F → Option (Builders F)
  add_both e count bs = do
    bs' ← add_transaction_metrics e count e.duration bs
    add_service_transaction_metrics e count e.duration bs'

  abbrev pub add_transaction_event : ApmEvent F → F → Builders F → Option (Builders F)
  add_transaction_event e count bs = do
    bs' ← add_both e count bs
    add_all_dropped e.dropped_spans_stats count bs'

  -- The branches on the type of the event.
  abbrev pub process_as : EventType → ApmEvent F → Builders F → Option (Builders F)
  process_as transaction_event e bs =
      let count = e.transaction_representative_count in
      let added = add_transaction_event e count bs in
      if f.not_positive count then some bs else added
  process_as span_event e bs =
      let count = e.span_representative_count in
      let added = add_span_metrics e count bs in
      if f.not_positive count || no_target e then some bs else added
  process_as other_event e bs = add_service_summary_metrics bs

  unfoldable pub process_event : ApmEvent F → Builders F → Option (Builders F)
  unfolding add_transaction_metrics add_service_transaction_metrics add_all_dropped add_span_metrics
      add_service_summary_metrics
  process_event e bs = process_as e.type_ e bs
