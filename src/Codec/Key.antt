-- ===== src/Codec/Key.antt =====
-- The binary form of `CombinedMetricsKey`, aggregators/codec.go: the key that the database sorts by.
-- A byte slice is the list of the bytes it shows. `Interval` is in nanoseconds, and `ProcessingTime`
-- in seconds since 1970 (as an int64) and nanoseconds within the second; `encoding/binary` and
-- `time` are Go's own. Intervals are those that the configuration accepts: not negative, and below
-- 2 ^ 16 seconds, past which the conversion of a float to uint16 is left open by Go.
pub mod Bytes
pub mod Reads
pub mod RoundTrip
pub mod Partition
pub mod Inverse
use apm_aggregation.Base.{
  ℕ, zero, suc, ◌+◌, ◌-◌, ◌*◌, ◌/◌, ◌%◌, ◌≡◌, Option, none, some, List, [], ◌∷◌, ◌++◌, not, ◌&&◌,
  ◌^◌,
}
use apm_aggregation.Base.Panic.{◌>>=◌}
use apm_aggregation.Base.Tests.{◌==◌, ltb, leb, if◌then◌else◌}
use apm_aggregation.Base.Lists.{length, take, drop, replicate}

pub record CombinedMetricsKey : Type 0 where
  pub interval : ℕ
  pub unix : ℕ
  pub nanosecond : ℕ
  pub partition_id : ℕ
  pub id : List ℕ

abbrev pub combined_metrics_key_encoded_size : ℕ
combined_metrics_key_encoded_size = 28

abbrev pub second : ℕ
second = 1000000000

-- The last `n` bytes of a number, the most significant first.
unfoldable pub big_endian : ℕ → ℕ → List ℕ
big_endian zero v = []
big_endian (suc n) v = big_endian n (v / 256) ++ (v % 256) ∷ []

unfoldable pub read_big_endian : ℕ → List ℕ → ℕ
read_big_endian acc [] = acc
read_big_endian acc (b ∷ bs) = read_big_endian (acc * 256 + b) bs

-- `copy(data[offset:], bytes)`, where the bytes fit.
unfoldable pub put_at : List ℕ → ℕ → List ℕ → List ℕ
put_at data_ offset bytes = take offset data_ ++ bytes ++ drop (offset + length bytes) data_

-- The bytes from `lo` to `hi`.
unfoldable pub slice : List ℕ → ℕ → ℕ → List ℕ
slice data_ lo hi = take (hi - lo) (drop lo data_)

-- The buffer after `MarshalBinaryToSizedBuffer`; `none` is the error of a wrong size.
unfoldable pub marshal_binary_to_sized_buffer : CombinedMetricsKey → List ℕ → Option (List ℕ)
unfolding big_endian put_at
marshal_binary_to_sized_buffer k data_ =
    let ivl_seconds = (k.interval / second) % 2 ^ 16 in
    if not (length data_ == combined_metrics_key_encoded_size)
    then none
    else let with_interval = put_at data_ 0 (big_endian 2 ivl_seconds) in
      let with_time = put_at with_interval 2 (big_endian 8 k.unix) in
      let with_id = put_at with_time 10 k.id in
      some (put_at with_id 26 (big_endian 2 k.partition_id))

-- An error, a panic of a slice out of range, or the key.
pub data Unmarshaled : Type 0 where
  insufficient_length : Unmarshaled
  panics : Unmarshaled
  key : CombinedMetricsKey → Unmarshaled

-- `data[lo:hi]` of a slice without spare capacity; `none` is the panic of a range that is not in the
-- data. (With spare capacity `data[10:26]` may be in range, but `data[26:]` still is not.)
unfoldable pub slice? : List ℕ → ℕ → ℕ → Option (List ℕ)
unfolding slice
slice? data_ lo hi = if leb lo hi && leb hi (length data_) then some (slice data_ lo hi) else none

-- The first `n` bytes of a slice, of a fixed size; `none` is the panic on a shorter slice.
unfoldable pub read_uint : ℕ → List ℕ → Option ℕ
unfolding read_big_endian
read_uint n bytes = if ltb (length bytes) n then none else some (read_big_endian 0 (take n bytes))

-- The reads of `UnmarshalBinary` at its four offsets; all 16 bytes of `ID` are copied over.
unfoldable pub read_fields : List ℕ → Option CombinedMetricsKey
unfolding slice? read_uint
read_fields data_ = do
  interval_bytes ← slice? data_ 0 2
  seconds ← read_uint 2 interval_bytes
  time_bytes ← slice? data_ 2 10
  unix ← read_uint 8 time_bytes
  id ← slice? data_ 10 26
  partition_bytes ← slice? data_ 26 (length data_)
  partition_id ← read_uint 2 partition_bytes
  some (record {
    interval = seconds * second;
    unix = unix;
    nanosecond = 0;
    partition_id = partition_id;
    id = id;
  })

abbrev unless_panic : Option CombinedMetricsKey → Unmarshaled
unless_panic none = panics
unless_panic (some k) = key k

unfoldable pub unmarshal_binary : List ℕ → Unmarshaled
unfolding read_fields
unmarshal_binary data_ =
    if ltb (length data_) 12 then insufficient_length else unless_panic (read_fields data_)

unfoldable pub size_binary : CombinedMetricsKey → ℕ
size_binary k = combined_metrics_key_encoded_size

-- The buffer has 28 zeros, of which the first 26 are copied over.
unfoldable pub get_encoded_combined_metrics_key_without_partition_id : List ℕ → List ℕ
unfolding put_at
get_encoded_combined_metrics_key_without_partition_id src =
    put_at (replicate combined_metrics_key_encoded_size 0) 0 (take 26 src)
