-- ===== src/Hdr/Index.antt =====
-- The indices of aggregators/internal/hdrhistogram/hdrhistogram.go: the sizes of the histogram, the
-- index of a value, and the values that share an index. int32 and int64 are bit patterns. The sizes
-- are constants that the code computes with floating-point logarithms of 1 and of 200, rounded; the
-- rounded logarithm is read off the binary digits here.
pub mod Magnitude
pub mod Values
pub mod Range
use Prim.Native.Nat.{bit_or}
use apm_aggregation.Base.{ℕ, zero, suc, ◌+◌, ◌-◌, ◌*◌, ◌/◌, ◌^◌, ◌≡◌, refl}
use apm_aggregation.Base.Tests.{ltb, leb, if◌then◌else◌}
use apm_aggregation.Base.Words.{add64, add32, sub32, sub64, to_int32, to_int64, lt32}
use apm_aggregation.Base.Bits.{
  shift_left32, shift_left64, shift_right64, digits_of, leading_zeros64,
}

abbrev pub lowest_trackable_value : ℕ
lowest_trackable_value = 1

-- One hour in microseconds.
abbrev pub highest_trackable_value : ℕ
highest_trackable_value = 3600000000

abbrev pub significant_figures : ℕ
significant_figures = 2

-- `math.Ceil(math.Log2(n))` and `math.Floor(math.Log2(n))` of a number from 1 to 2 ^ 64.
unfoldable pub ceil_log2 : ℕ → ℕ
unfolding digits_of
ceil_log2 n = digits_of 64 (n - 1)

unfoldable pub floor_log2 : ℕ → ℕ
unfolding digits_of
floor_log2 n = digits_of 64 n - 1

unfoldable pub get_sub_bucket_half_count_magnitude : ℕ
unfolding ceil_log2
get_sub_bucket_half_count_magnitude =
    let sub_bucket_count_magnitude = ceil_log2 (2 * 10 ^ significant_figures) in
    if ltb sub_bucket_count_magnitude 1 then 0 else sub_bucket_count_magnitude - 1

unfoldable pub get_unit_magnitude : ℕ
unfolding floor_log2
get_unit_magnitude = floor_log2 lowest_trackable_value

unfoldable pub get_sub_bucket_count : ℕ
unfolding get_sub_bucket_half_count_magnitude
get_sub_bucket_count = 2 ^ (get_sub_bucket_half_count_magnitude + 1)

unfoldable pub get_sub_bucket_half_count : ℕ
unfolding get_sub_bucket_count
get_sub_bucket_half_count = get_sub_bucket_count / 2

unfoldable pub get_sub_bucket_mask : ℕ
unfolding shift_left64 get_sub_bucket_count get_unit_magnitude
get_sub_bucket_mask = shift_left64 (get_sub_bucket_count - 1) get_unit_magnitude

-- The loop of `getBucketCount`; a shift before the last doubles a number below 2 ^ 63, so that it
-- ends within 64 turns.
unfoldable pub buckets_needed_from : ℕ → ℕ → ℕ → ℕ
unfolding shift_left64
buckets_needed_from zero smallest_untrackable_value buckets_needed = buckets_needed
buckets_needed_from (suc fuel) smallest_untrackable_value buckets_needed =
    let rest =
      buckets_needed_from fuel (shift_left64 smallest_untrackable_value 1) (buckets_needed + 1) in
    if ltb smallest_untrackable_value highest_trackable_value
    then (if ltb ((2 ^ 63 - 1) / 2) smallest_untrackable_value then buckets_needed + 1 else rest)
    else buckets_needed

unfoldable pub get_bucket_count : ℕ
unfolding buckets_needed_from shift_left64 get_sub_bucket_count get_unit_magnitude
get_bucket_count = buckets_needed_from 64 (shift_left64 get_sub_bucket_count get_unit_magnitude) 1

unfoldable pub get_counts_len : ℕ
unfolding get_bucket_count get_sub_bucket_count
get_counts_len = (get_bucket_count + 1) * (get_sub_bucket_count / 2)

unfoldable pub get_bucket_index : ℕ → ℕ
unfolding leading_zeros64 sub64 to_int32 get_sub_bucket_mask
get_bucket_index v =
    let pow2_ceiling = 64 - leading_zeros64 (bit_or v get_sub_bucket_mask) in
    to_int32
      (sub64 (sub64 pow2_ceiling get_unit_magnitude) (get_sub_bucket_half_count_magnitude + 1))

unfoldable pub get_sub_bucket_idx : ℕ → ℕ → ℕ
unfolding shift_right64 to_int32 to_int64 add64
get_sub_bucket_idx v idx = to_int32 (shift_right64 v (add64 (to_int64 idx) get_unit_magnitude))

unfoldable pub counts_index : ℕ → ℕ → ℕ
unfolding shift_left32 add32 sub32
counts_index bucket_idx sub_bucket_idx =
    let base_bucket_idx = shift_left32 (add32 bucket_idx 1) get_sub_bucket_half_count_magnitude in
    sub32 (add32 base_bucket_idx sub_bucket_idx) get_sub_bucket_half_count

unfoldable pub counts_index_for : ℕ → ℕ
unfolding get_bucket_index get_sub_bucket_idx counts_index
counts_index_for v =
    let bucket_idx = get_bucket_index v in counts_index bucket_idx (get_sub_bucket_idx v bucket_idx)

unfoldable pub value_from_index : ℕ → ℕ → ℕ
unfolding shift_left64 to_int64 add32
value_from_index bucket_idx sub_bucket_idx =
    shift_left64 (to_int64 sub_bucket_idx) (to_int64 (add32 bucket_idx get_unit_magnitude))

unfoldable pub lowest_equivalent_value_given_bucket_idx : ℕ → ℕ → ℕ
unfolding get_sub_bucket_idx value_from_index
lowest_equivalent_value_given_bucket_idx v bucket_idx =
    value_from_index bucket_idx (get_sub_bucket_idx v bucket_idx)

unfoldable pub size_of_equivalent_value_range_given_bucket_idx : ℕ → ℕ → ℕ
unfolding get_sub_bucket_idx shift_left64 to_int64 add32
size_of_equivalent_value_range_given_bucket_idx v bucket_idx =
    let sub_bucket_idx = get_sub_bucket_idx v bucket_idx in
    let adjusted_bucket =
      if lt32 sub_bucket_idx get_sub_bucket_count then bucket_idx else add32 bucket_idx 1 in
    shift_left64 1 (to_int64 (add32 get_unit_magnitude adjusted_bucket))

unfoldable pub next_non_equivalent_value : ℕ → ℕ
unfolding get_bucket_index lowest_equivalent_value_given_bucket_idx
    size_of_equivalent_value_range_given_bucket_idx add64
next_non_equivalent_value v =
    let bucket_idx = get_bucket_index v in
    add64 (lowest_equivalent_value_given_bucket_idx v bucket_idx)
      (size_of_equivalent_value_range_given_bucket_idx v bucket_idx)

unfoldable pub highest_equivalent_value : ℕ → ℕ
unfolding next_non_equivalent_value sub64
highest_equivalent_value v = sub64 (next_non_equivalent_value v) 1

-- The constants that the code keeps.
sizes :
    (get_bucket_count ≡ 25)
    × (get_sub_bucket_count ≡ 256)
    × (get_sub_bucket_half_count_magnitude ≡ 7)
    × (get_counts_len ≡ 3328)
    × (get_sub_bucket_mask ≡ 255)
    × (get_unit_magnitude ≡ 0)
unfolding get_bucket_count ceil_log2 get_counts_len get_sub_bucket_mask
sizes = (refl, refl, refl, refl, refl, refl)
