-- ===== src/Hdr/Iterator.antt =====
-- The iterator of aggregators/internal/hdrhistogram/hdrhistogram.go over the indices of the counts
-- array. Its pointer to the histogram is left out: the methods that it calls read none of its fields.
pub mod Place
use apm_aggregation.Base.{ℕ, zero, suc, ◌^◌, ◌-◌, Bool, true, false, not}
use apm_aggregation.Base.Tests.{ltb, if◌then◌else◌}
use apm_aggregation.Base.Words.{add32, lt32, negative64}
use apm_aggregation.Hdr.Index.{
  get_sub_bucket_count, get_sub_bucket_half_count, get_bucket_count, value_from_index,
  highest_equivalent_value,
}

pub record Iterator : Type 0 where
  pub bucket_idx : ℕ
  pub sub_bucket_idx : ℕ
  pub value_from_idx : ℕ
  pub highest_equivalent_value : ℕ

unfoldable pub iterator : Iterator
iterator = record {
  bucket_idx = 0;
  sub_bucket_idx = 2 ^ 32 - 1;
  value_from_idx = 0;
  highest_equivalent_value = 0;
}

-- The step to the next sub-bucket, the first statements of `nextCountAtIdx`.
unfoldable pub next_sub_bucket : Iterator → Iterator
unfolding add32 get_sub_bucket_count get_sub_bucket_half_count
next_sub_bucket i =
    let sub_bucket_idx = add32 i.sub_bucket_idx 1 in
    if not (lt32 sub_bucket_idx get_sub_bucket_count)
    then record i { sub_bucket_idx = get_sub_bucket_half_count; bucket_idx = add32 i.bucket_idx 1 }
    else record i { sub_bucket_idx = sub_bucket_idx }

-- The rest of `nextCountAtIdx`.
unfoldable pub set_value : Iterator → Iterator × Bool
unfolding value_from_index get_bucket_count
set_value i =
    if not (lt32 i.bucket_idx get_bucket_count)
    then (i, false)
    else (record i { value_from_idx = value_from_index i.bucket_idx i.sub_bucket_idx }, true)

unfoldable pub next_count_at_idx : Iterator → Iterator × Bool
unfolding next_sub_bucket set_value
next_count_at_idx i = set_value (next_sub_bucket i)

-- The loop of `advance`, for a count that is not negative.
unfoldable pub advance_by : ℕ → Iterator → Iterator × Bool
unfolding next_count_at_idx
advance_by zero i =
    (record i { highest_equivalent_value = highest_equivalent_value i.value_from_idx }, true)
advance_by (suc count) i =
    let (j, ok) = next_count_at_idx i in if ok then advance_by count j else (j, false)

unfoldable pub advance : Iterator → ℕ → Iterator × Bool
unfolding advance_by
advance i count = advance_by (if negative64 count then 0 else count) i
