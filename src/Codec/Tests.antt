-- ===== src/Codec/Tests.antt =====
-- The encodings of a key and of a histogram at concrete values.
use apm_aggregation.Base.Search.{scanning}
use apm_aggregation.Bars.{Bar, count_at}
use apm_aggregation.Hdr.Counts.{HybridCountsRep, for_each}
use apm_aggregation.Hdr.Counts.Adds.{IsValid}
use apm_aggregation.Hdr.Representation.{HistogramRepresentation, new}
use apm_aggregation.Merger.Histogram.Slices.{Represents}
use apm_aggregation.Codec.Histograms.{
  set_histogram_proto, histogram_to_proto, histogram_from_proto, histogram_from_proto-to_proto,
}
use apm_aggregation.Base.{ℕ, zero, suc, ◌≡◌, ◌≤◌, ◌<◌, ◌⊎◌, refl, some, List, [], ◌∷◌, arith}
use apm_aggregation.Base.Lists.{length, replicate, take}
use apm_aggregation.Codec.Key.{
  CombinedMetricsKey, combined_metrics_key_encoded_size, marshal_binary_to_sized_buffer,
  insufficient_length, panics, key, unmarshal_binary,
  get_encoded_combined_metrics_key_without_partition_id,
}
use apm_aggregation.Codec.Key.RoundTrip.{IsWhole, unmarshal-marshal_binary}
use apm_aggregation.Codec.Key.Inverse.{AreBytes, unmarshal_binary_cases}
use apm_aggregation.Codec.Key.Partition.{without_partition_id-marshal_binary}

abbrev minute : CombinedMetricsKey
minute = record {
  interval = 60000000000;
  unix = 1672531200;
  nanosecond = 0;
  partition_id = 513;
  id = replicate 16 7;
}

minute-IsWhole : IsWhole minute
minute-IsWhole = record {
  seconds = 60;
  interval = refl;
  seconds_range = omega arith;
  unix_range = omega arith;
  nanosecond = refl;
  partition_range = omega arith;
  id_length = refl;
}

abbrev buffer : List ℕ
buffer = replicate 28 255

unmarshal-marshal_binary_example :
    (buf : List ℕ) × (marshal_binary_to_sized_buffer minute buffer ≡ some buf)
    × (length buf ≡ combined_metrics_key_encoded_size)
    × (unmarshal_binary buf ≡ key minute)
unmarshal-marshal_binary_example = unmarshal-marshal_binary minute buffer minute-IsWhole refl

abbrev long : List ℕ
long = replicate 30 200

all_bytes : (n : ℕ) → AreBytes (replicate n 200)
all_bytes zero = tt
all_bytes (suc n) = (omega arith, all_bytes n)

unmarshal_binary_cases_example :
    ((unmarshal_binary long ≡ insufficient_length) × (length long < 12))
    ⊎ ((unmarshal_binary long ≡ panics) × (12 ≤ length long) × (length long < 28))
    ⊎ ((k : CombinedMetricsKey) × (unmarshal_binary long ≡ key k)
        × (28 ≤ length long)
        × IsWhole k
        × ((buf : List ℕ)
            → length buf ≡ combined_metrics_key_encoded_size
            → marshal_binary_to_sized_buffer k buf ≡ some (take 28 long)))
unmarshal_binary_cases_example = unmarshal_binary_cases long (all_bytes 30)

-- There is no ID to read.
short_panics : unmarshal_binary (replicate 20 0) ≡ panics
unfolding unmarshal_binary
short_panics = refl

without_partition_id-marshal_binary_example :
    (buf : List ℕ) × (marshal_binary_to_sized_buffer minute buffer ≡ some buf)
    × (marshal_binary_to_sized_buffer (record minute { partition_id = 0 }) buffer
        ≡ some (get_encoded_combined_metrics_key_without_partition_id buf))
without_partition_id-marshal_binary_example =
    without_partition_id-marshal_binary minute buffer refl refl

abbrev histogram : HistogramRepresentation
histogram = record {
  lowest_trackable_value = 1;
  highest_trackable_value = 3600000000;
  significant_figures = 2;
  counts_rep = record {
    bucket = 0;
    value = 0;
    s = some (record { bucket = 4; count = 7 } ∷ record { bucket = 9; count = 2 } ∷ []);
  };
}

histogram-IsValid : IsValid histogram.counts_rep
unfolding for_each
histogram-IsValid = record {
  sorted = (omega arith, (omega arith, tt));
  ranged = ((omega arith, omega arith), ((omega arith, omega arith), tt));
}

histogram_from_proto-to_proto_example :
    Represents (set_histogram_proto histogram) (for_each histogram.counts_rep)
    × ((c : HybridCountsRep) × (histogram_from_proto
            (scanning Bar)
            new
            (histogram_to_proto (some histogram))
          ≡ some (record histogram { counts_rep = c }))
        × IsValid c
        × ((q : ℕ) → count_at q (for_each c) ≡ count_at q (for_each histogram.counts_rep)))
histogram_from_proto-to_proto_example =
    histogram_from_proto-to_proto (scanning Bar) histogram new histogram-IsValid
