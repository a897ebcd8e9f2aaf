-- ===== src/Converter/Aggregated.antt =====
-- Events of aggregators/converter.go on their way: as the aggregator takes their metrics, and merged.
use apm_aggregation.Base.{
  ℕ, ◌^◌, ◌<◌, ◌≤◌, ◌≡◌, refl, sym, ap, subst, ◌∙◌, inl, inr, Option, none, some, List, [], ◌∷◌,
  ◌++◌, arith,
}
use apm_aggregation.Base.Lists.{All, All-append, length}
use apm_aggregation.Base.Tests.{Option-cases}
use apm_aggregation.Base.Panic.{some_eq}
use apm_aggregation.Base.Words.{add64, add64_assoc, zero-add64}
use apm_aggregation.Base.Search.{Slices}
use apm_aggregation.Bars.{Bar}
use apm_aggregation.Pb.{Text, HdrHistogram}
use apm_aggregation.Pb
use apm_aggregation.Models.Env.{Env}
use apm_aggregation.Models.Keys.{Limits}
use apm_aggregation.Codec.Key.{CombinedMetricsKey}
use apm_aggregation.Merger.Combined.{CombinedMetricsMerger}
use apm_aggregation.Merger.Combined.Invariant.{Kind, service_size, total_limit}
use apm_aggregation.Merger.Combined.Found.{size_map}
use apm_aggregation.Merger.Combined.ServiceStep.{merger_count}
use apm_aggregation.Merger.Combined.Whole.{
  IsCombinedIn, combined_count, all_count, all_count-lt, new_merger, merge_all, merge_all-Bounded,
}
use apm_aggregation.Aggregator.State.{Calls}
use apm_aggregation.Aggregator.Kept.{Converts}
use apm_aggregation.Converter.Event.{ApmEvent, Floats}
use apm_aggregation.Converter.Produce.{
  Produced, bad_labels, panics, produced, event_to_combined_metrics, labelled,
}
use apm_aggregation.Converter.Outcome.{event_count}
use apm_aggregation.Converter.Produced.{event_to_combined_metrics-Produces}
use apm_aggregation.Converter.Pairs.{metrics_of, IsSpread}

abbrev pub pairs_of :
    {F : Type 0} → Produced F → Option (List (CombinedMetricsKey × Pb.CombinedMetrics F))
pairs_of bad_labels = none
pairs_of panics = none
pairs_of (produced cms) = some cms

spread-keys :
    {F : Type 0} (n : ℕ) (k : CombinedMetricsKey)
    (cms : List (CombinedMetricsKey × Pb.CombinedMetrics F))
    → n < 2 ^ 16
    → IsSpread n k cms
    → All
        (λ (km : CombinedMetricsKey × Pb.CombinedMetrics F).
          (q : ℕ) × (q < 2 ^ 16) × (km.0 ≡ record k { partition_id = q }))
        cms
spread-keys n k [] l a = tt
spread-keys n k ((j, m) ∷ rest) l (key, d, r) =
    ((j.partition_id, omega (arith, key.1, l), key.0), spread-keys n k rest l r)

-- What events count, those that are converted.
module _ {F : Type 0} (f : Floats F) (labels : ApmEvent F → Option Text) where
  abbrev pub labelled_count : Option Text → ApmEvent F → Kind → ℕ → ℕ
  labelled_count none e k q = 0
  labelled_count (some text) e k q = event_count f e e.type_ k q

  unfoldable pub events_count : Kind → ℕ → List (ApmEvent F) → ℕ
  unfolding event_count
  events_count k q [] = 0
  events_count k q (e ∷ es) = add64 (labelled_count (labels e) e k q) (events_count k q es)

module _ {F S D : Type 0} (env : Env F S D) (f : Floats F) (lib : Slices Bar)
    (labels : ApmEvent F → Option Text) (n : ℕ) (old : HdrHistogram) where
  abbrev pub convert : ApmEvent F → CombinedMetricsKey → Produced F
  convert e k = event_to_combined_metrics env f lib labels e k n old

  convert-none :
      (e : ApmEvent F) (k : CombinedMetricsKey) → labels e ≡ none → convert e k ≡ bad_labels
  unfolding event_to_combined_metrics
  convert-none e k h = ap (labelled env f lib e k n old) h

  -- What the aggregator calls, with the conversion of an event as it is.
  abbrev pub with_conversion :
      {V : Type 0}
      → Calls (ApmEvent F) (Pb.CombinedMetrics F) V F
      → Calls (ApmEvent F) (Pb.CombinedMetrics F) V F
  with_conversion x = record x { event_to_combined_metrics = λ e k. pairs_of (convert e k) }

  converted_keys :
      (e : ApmEvent F) (k : CombinedMetricsKey)
      (cms : List (CombinedMetricsKey × Pb.CombinedMetrics F))
      → 0 < n
      → n < 2 ^ 16
      → pairs_of (convert e k) ≡ some cms
      → IsSpread n k cms
  converted_keys e k cms z l h = elim (Option-cases (labels e)) [
    | inl none_ ↦ absurd (ground (arith, ap pairs_of (sym (convert-none e k none_)) ∙ h))
    | inr (text, fine) ↦
        let (made, run, t) =
          event_to_combined_metrics-Produces env f lib labels e k n old text fine z l in
        subst (IsSpread n k) (some_eq (ap pairs_of (sym run) ∙ h)) t.keys
  ]

  -- The conversion of events gives the aggregator keys that differ from the given one in the partition
  -- alone, for any number of partitions from 1 to 65535.
  pub with_conversion-Converts :
      {V : Type 0} (x : Calls (ApmEvent F) (Pb.CombinedMetrics F) V F)
      → 0 < n
      → n < 2 ^ 16
      → Converts (with_conversion x)
  with_conversion-Converts x z l = record {
    partitioned = λ e k cms h. spread-keys n k cms l (converted_keys e k cms z l h);
  }

  -- The metrics of events for a key, in all partitions; events whose labels cannot be marshalled give
  -- none.
  abbrev pub taken :
      Option (List (CombinedMetricsKey × Pb.CombinedMetrics F)) → List (Pb.CombinedMetrics F)
  taken none = []
  taken (some cms) = metrics_of cms

  unfoldable pub converted : CombinedMetricsKey → List (ApmEvent F) → List (Pb.CombinedMetrics F)
  unfolding event_to_combined_metrics
  converted k [] = []
  converted k (e ∷ es) = taken (pairs_of (convert e k)) ++ converted k es

  all_count-append :
      (k : Kind) (q : ℕ) (xs ys : List (Pb.CombinedMetrics F))
      → all_count k q (xs ++ ys) ≡ add64 (all_count k q xs) (all_count k q ys)
  unfolding all_count
  all_count-append k q [] ys = sym (zero-add64 _ (all_count-lt k q ys))
  all_count-append k q (x ∷ xs) ys =
      rw (all_count-append k q xs ys)
        (sym (add64_assoc (combined_count k q x) (all_count k q xs) (all_count k q ys)))

  -- One event's metrics.
  taken_lem :
      (k : CombinedMetricsKey) (e : ApmEvent F)
      → 0 < n
      → n < 2 ^ 16
      → All IsCombinedIn (taken (pairs_of (convert e k)))
        × ((j : Kind) (q : ℕ)
            → all_count j q (taken (pairs_of (convert e k)))
              ≡ labelled_count f labels (labels e) e j q)
  unfolding all_count
  taken_lem k e z l = elim (Option-cases (labels e)) [
    | inl none_ ↦ rw (none_, convert-none e k none_) (tt, λ j q. refl)
    | inr (text, fine) ↦
        let (made, run, t) =
          event_to_combined_metrics-Produces env f lib labels e k n old text fine z l in
        rw (fine, run) (t.combined, t.counts)
  ]

  converted_lem :
      (k : CombinedMetricsKey) (es : List (ApmEvent F))
      → 0 < n
      → n < 2 ^ 16
      → All IsCombinedIn (converted k es)
        × ((j : Kind) (q : ℕ) → all_count j q (converted k es) ≡ events_count f labels j q es)
  unfolding converted all_count events_count
  converted_lem k [] z l = (tt, λ j q. refl)
  converted_lem k (e ∷ es) z l =
      let (one, c) = taken_lem k e z l in
      let (rest, d) = converted_lem k es z l in
      let first = taken (pairs_of (convert e k)) in
      (
        All-append IsCombinedIn first (converted k es) one rest,
        λ j q. all_count-append j q first (converted k es) ∙ rw (c j q, d j q) refl,
      )

  -- What any events give for a key, in all partitions, is merged without a panic into a new merger,
  -- which keeps to its limits. For both kinds of histograms and every bucket, its groups and overflow
  -- buckets count together (modulo 2 ^ 64) each transaction with labels that can be marshalled, a
  -- positive representative count and a duration of 0 to below 2 ^ 32 microseconds, rounded to zero,
  -- once, scaled by that count, and nothing else: transactions of other durations are not counted,
  -- since the error of RecordDuration is dropped.
  pub merge_all-converted :
      (sb sc : ℕ → ℕ) (limits : Limits) (k : CombinedMetricsKey) (es : List (ApmEvent F))
      → 0 < n
      → n < 2 ^ 16
      → (m' : CombinedMetricsMerger F S) × (merge_all env sb sc
            (new_merger env sb sc limits)
            (converted k es)
          ≡ some m')
        × (length m'.metrics.services ≤ limits.max_services)
        × ((j : Kind) → size_map (service_size j) m'.metrics.services ≤ total_limit j limits)
        × ((j : Kind) (q : ℕ) → merger_count j q m'.metrics ≡ events_count f labels j q es)
  merge_all-converted sb sc limits k es z l =
      let (all, e) = converted_lem k es z l in
      let (m', run, room, sizes, counts) =
        merge_all-Bounded env sb sc limits (converted k es) all in
      (m', run, room, sizes, λ j q. counts j q ∙ e j q)
