-- ===== src/Codec/Key/Partition.antt =====
-- Dropping the partition ID of an encoded key.
use apm_aggregation.Base.{ℕ, ◌/◌, ◌%◌, ◌^◌, ◌≡◌, refl, sym, some, List, [], ◌∷◌, ◌++◌, arith}
use apm_aggregation.Base.Lists.{length, length-append, replicate}
use apm_aggregation.Codec.Key.{
  CombinedMetricsKey, combined_metrics_key_encoded_size, second, big_endian,
  marshal_binary_to_sized_buffer, get_encoded_combined_metrics_key_without_partition_id,
}
use apm_aggregation.Codec.Key.Bytes.{length-big_endian, put_at_lem, take_left}
use apm_aggregation.Codec.Key.RoundTrip.{encoding, marshal_lem}

zero_partition : big_endian 2 0 ≡ 0 ∷ 0 ∷ []
unfolding big_endian
zero_partition = refl

without_lem :
    (a d : List ℕ)
    → length a ≡ 26
    → get_encoded_combined_metrics_key_without_partition_id (a ++ d) ≡ a ++ big_endian 2 0
unfolding get_encoded_combined_metrics_key_without_partition_id
without_lem a d h =
    rw (take_left 26 a d (sym h), zero_partition)
      (rw (put_at_lem 0 [] a (replicate combined_metrics_key_encoded_size 0) refl) (rw h refl))

-- For a key with an ID of 16 bytes, dropping the partition ID of its encoding gives the encoding of
-- the same key in partition 0.
pub without_partition_id-marshal_binary :
    (k : CombinedMetricsKey) (data_ : List ℕ)
    → length k.id ≡ 16
    → length data_ ≡ combined_metrics_key_encoded_size
    → (buf : List ℕ) × (marshal_binary_to_sized_buffer k data_ ≡ some buf)
      × (marshal_binary_to_sized_buffer (record k { partition_id = 0 }) data_
          ≡ some (get_encoded_combined_metrics_key_without_partition_id buf))
without_partition_id-marshal_binary k data_ n h =
    let a = big_endian 2 ((k.interval / second) % 2 ^ 16) in
    let b = big_endian 8 k.unix in
    let ab = length-append a b in
    let abc = length-append (a ++ b) k.id in
    let two = length-big_endian 2 ((k.interval / second) % 2 ^ 16) in
    let eight = length-big_endian 8 k.unix in
    (
      encoding k,
      marshal_lem k data_ n h,
      rw (without_lem ((a ++ b) ++ k.id) (big_endian 2 k.partition_id) (omega arith))
          (marshal_lem (record k { partition_id = 0 }) data_ n h),
    )
