-- ===== src/Aggregator/State.antt =====
-- The state of the `Aggregator` of aggregators/aggregator.go and what aggregation does to it. A time is
-- the nanoseconds since Go's zero time, an interval an int64 of nanoseconds. The counters, spans and
-- log lines of telemetry are left out.
use apm_aggregation.Base.{
  ℕ, ◌+◌, ◌-◌, ◌*◌, ◌%◌, Bool, true, false, not, ◌||◌, Option, none, some, List, [], ◌∷◌, ◌++◌,
}
use apm_aggregation.Base.Tests.{ltb, ◌==◌, if◌then◌else◌}
use apm_aggregation.Base.Words.{negative64}
use apm_aggregation.Base.Lists.{length, replicate}
use apm_aggregation.Codec.Key.{
  CombinedMetricsKey, combined_metrics_key_encoded_size, marshal_binary_to_sized_buffer,
}
use apm_aggregation.Cached
use apm_aggregation.Aggregator.Bounds.{key_at}
use apm_aggregation.Aggregator.Pebble.{Entries, Pebble}

-- `runStopped`: nil, an open channel, or a closed one.
pub data RunStopped : Type 0 where
  unset : RunStopped
  running : RunStopped
  stopped : RunStopped

pub record Aggregator (Db V : Type 0) : Type 0 where
  pub db : Db
  pub processing_time : ℕ
  pub batch : Option (Entries V)
  pub cached_events : Cached.Counts
  pub closed : Bool
  pub run_stopped : RunStopped

-- What the aggregator calls besides pebble: the generated codec of combined metrics, which does not
-- fail to marshal, the processor of the configuration, and the conversion of an event (`none` is its
-- error on labels). `F` is float64.
pub record Calls (E M V F : Type 0) : Type 0 where
  pub marshal_vt : M → V
  pub size_vt : M → ℕ
  pub unmarshal_vt : V → Option M
  pub processor : CombinedMetricsKey → M → ℕ → Bool
  pub event_to_combined_metrics : E → CombinedMetricsKey → Option (List (CombinedMetricsKey × M))
  pub events_total : M → F
  pub of_length : ℕ → F
  pub scaled : F → ℕ

abbrev pub db_commit_threshold_bytes : ℕ
db_commit_threshold_bytes = 10 * 1024 * 1024

pub data Problem : Type 0 where
  cancelled : Problem
  aggregator_closed : Problem
  labels : Problem
  marshal_key : Problem
  finish_merge : Problem
  commit_failed : Problem
  close_failed : Problem

-- `t.Truncate(ivl)`
unfoldable pub truncate : ℕ → ℕ → ℕ
truncate t ivl = if ivl == 0 || negative64 ivl then t else t - t % ivl

-- The state after a call, the bytes that it counts, and its errors.
pub record Result (S : Type 0) : Type 0 where
  pub state : S
  pub bytes_in : ℕ
  pub errors : List Problem

abbrev pub operations : {V : Type 0} → Option (Entries V) → Entries V
operations none = []
operations (some ops) = ops

-- An error hides the bytes.
abbrev pub returned : {S : Type 0} → Result S → Result S
returned r = if length r.errors == 0 then r else record r { bytes_in = 0 }

-- The `select` before a batch or combined metrics are taken; of two channels that are ready Go takes
-- either, here the context if `prefer`.
abbrev pub refused : Bool → Bool → Bool → Option Problem
refused true false prefer = some cancelled
refused true true prefer = if prefer then some cancelled else some aggregator_closed
refused false true prefer = some aggregator_closed
refused false false prefer = none

abbrev pub unless_refused : {S : Type 0} → Option Problem → Result S → S → Result S
unless_refused none r a = r
unless_refused (some e) r a = record { state = a; bytes_in = 0; errors = e ∷ [] }

module _ {Db V : Type 0} (p : Pebble Db V) where
  -- The end of `aggregate`: a batch that has reached the threshold is committed and closed.
  unfoldable pub commit_at_threshold : Entries V → ℕ → Aggregator Db V → Result (Aggregator Db V)
  commit_at_threshold ops bytes_in a =
      let kept = record a { batch = some ops } in
      let (db, ok) = p.commit ops a.db in
      let written = record a { db = db; batch = some ops } in
      if ltb (p.len ops) db_commit_threshold_bytes
      then record { state = kept; bytes_in = bytes_in; errors = [] }
      else (if not ok
          then record { state = written; bytes_in = bytes_in; errors = commit_failed ∷ [] }
          else (if not (p.close_batch ops)
              then record { state = written; bytes_in = bytes_in; errors = close_failed ∷ [] }
              else record {
                state = record written { batch = none };
                bytes_in = bytes_in;
                errors = [];
              }))

  -- A merge operation whose key and value are written.
  abbrev pub finished : Entries V → ℕ → Aggregator Db V → Result (Aggregator Db V)
  finished ops bytes_in a =
      if not (p.finish ops)
      then record {
        state = record a { batch = some ops };
        bytes_in = 0;
        errors = finish_merge ∷ [];
      }
      else commit_at_threshold ops bytes_in a

module _ {Db E M V F : Type 0} (p : Pebble Db V) (x : Calls E M V F) where
  -- A deferred operation has a buffer of `SizeBinary` bytes for the key. No key fails to be written to
  -- it, so that what the batch would have then is not modelled.
  abbrev pub merged : Option (List ℕ) → M → Aggregator Db V → Result (Aggregator Db V)
  merged none cm a = record { state = a; bytes_in = 0; errors = marshal_key ∷ [] }
  merged (some key) cm a =
      finished p (operations a.batch ++ (key, x.marshal_vt cm) ∷ []) (x.size_vt cm) a

  unfoldable pub aggregate : CombinedMetricsKey → M → Aggregator Db V → Result (Aggregator Db V)
  unfolding commit_at_threshold marshal_binary_to_sized_buffer
  aggregate cmk cm a =
      let buf = replicate combined_metrics_key_encoded_size 0 in
      merged (marshal_binary_to_sized_buffer cmk buf) cm a

  -- `aggregateFunc` for each of the combined metrics that an event gives.
  unfoldable pub aggregate_each :
      List (CombinedMetricsKey × M) → Aggregator Db V → Result (Aggregator Db V)
  unfolding aggregate
  aggregate_each [] a = record { state = a; bytes_in = 0; errors = [] }
  aggregate_each ((k, m) ∷ rest) a =
      let one = aggregate k m a in
      let all = aggregate_each rest one.state in
      record {
        state = all.state;
        bytes_in = one.bytes_in + all.bytes_in;
        errors = one.errors ++ all.errors;
      }

  abbrev pub converted :
      Option (List (CombinedMetricsKey × M)) → Aggregator Db V → Result (Aggregator Db V)
  converted none a = record { state = a; bytes_in = 0; errors = labels ∷ [] }
  converted (some cms) a = returned (aggregate_each cms a)

  unfoldable pub aggregate_apm_event :
      CombinedMetricsKey → E → Aggregator Db V → Result (Aggregator Db V)
  unfolding aggregate_each
  aggregate_apm_event cmk e a = converted (x.event_to_combined_metrics e cmk) a

  unfoldable pub aggregate_events :
      CombinedMetricsKey → List E → Aggregator Db V → Result (Aggregator Db V)
  unfolding aggregate_apm_event
  aggregate_events cmk [] a = record { state = a; bytes_in = 0; errors = [] }
  aggregate_events cmk (e ∷ es) a =
      let one = aggregate_apm_event cmk e a in
      let all = aggregate_events cmk es one.state in
      record {
        state = all.state;
        bytes_in = one.bytes_in + all.bytes_in;
        errors = one.errors ++ all.errors;
      }

  -- An interval of a batch: its key, its events, and their number.
  unfoldable pub aggregate_interval :
      List ℕ → List E → ℕ → Aggregator Db V → Result (Aggregator Db V)
  unfolding aggregate_events key_at truncate
  aggregate_interval id b ivl a =
      let r = aggregate_events (key_at ivl (truncate a.processing_time ivl) 0 id) b a in
      let counted = Cached.add x.scaled ivl id (x.of_length (length b)) r.state.cached_events in
      record r { state = record r.state { cached_events = counted } }

  unfoldable pub aggregate_intervals :
      List ℕ → List E → List ℕ → Aggregator Db V → Result (Aggregator Db V)
  unfolding aggregate_interval
  aggregate_intervals id b [] a = record { state = a; bytes_in = 0; errors = [] }
  aggregate_intervals id b (ivl ∷ ivls) a =
      let one = aggregate_interval id b ivl a in
      let all = aggregate_intervals id b ivls one.state in
      record {
        state = all.state;
        bytes_in = one.bytes_in + all.bytes_in;
        errors = one.errors ++ all.errors;
      }

  -- The errors of all events of all intervals are joined.
  unfoldable pub aggregate_batch :
      Bool → Bool → List ℕ → List ℕ → List E → Aggregator Db V → Result (Aggregator Db V)
  unfolding aggregate_intervals
  aggregate_batch is_done prefer ivls id b a =
      unless_refused (refused is_done a.closed prefer) (aggregate_intervals id b ivls a) a

  unfoldable pub aggregate_combined_metrics :
      Bool → Bool → CombinedMetricsKey → M → Aggregator Db V → Result (Aggregator Db V)
  unfolding aggregate
  aggregate_combined_metrics is_done prefer cmk cm a =
      let r = aggregate cmk cm a in
      let counted =
        Cached.add x.scaled cmk.interval cmk.id (x.events_total cm) r.state.cached_events in
      unless_refused (refused is_done a.closed prefer)
        (record r { state = record r.state { cached_events = counted } }) a
