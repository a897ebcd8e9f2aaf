-- ===== src/Hdr/Index/Values.antt =====
-- The index and the bounds of a value's bar, by the value's position.
use native.Mathlib.Nat.{one-le-pow, mod-eq_of_lt}
use apm_aggregation.Base.{ℕ, ◌+◌, ◌*◌, ◌^◌, ◌≤◌, ◌<◌, ◌≡◌, ◌∙◌, ◌⊎◌, true, min, arith}
use apm_aggregation.Base.Words.{add64, sub64, add32, sub32, to_int64, lt32}
use apm_aggregation.Base.Bits.{grown, shift_left32, shift_left64}
use apm_aggregation.Hdr.Index.{
  get_bucket_index, get_unit_magnitude, get_sub_bucket_count, get_sub_bucket_half_count_magnitude,
  get_sub_bucket_half_count, ceil_log2, counts_index, counts_index_for, value_from_index,
  lowest_equivalent_value_given_bucket_idx, size_of_equivalent_value_range_given_bucket_idx,
  next_non_equivalent_value, highest_equivalent_value,
}
use apm_aggregation.Hdr.Index.Magnitude.{Position}

-- The places of the counts array: bucket 0 has 256 of them, the others the upper 128.
pub counts_index_lem :
    (b q : ℕ) → b ≤ 56 → q < 256 → (b ≡ 0) ⊎ (128 ≤ q) → counts_index b q ≡ b * 128 + q
unfolding counts_index shift_left32 add32 sub32 get_sub_bucket_half_count_magnitude ceil_log2
    get_sub_bucket_half_count
counts_index_lem b q l f s = ground arith

shift_of : (b : ℕ) → b ≤ 56 → to_int64 (add32 b get_unit_magnitude) ≡ b
unfolding to_int64 add32 get_unit_magnitude
shift_of b l = ground arith

unit_shift_of : (b : ℕ) → b ≤ 56 → to_int64 (add32 get_unit_magnitude b) ≡ b
unfolding to_int64 add32 get_unit_magnitude
unit_shift_of b l = ground arith

shifted_left : (a b : ℕ) → b ≤ 56 → a * 2 ^ b < 2 ^ 64 → shift_left64 a b ≡ a * 2 ^ b
unfolding shift_left64
shifted_left a b l h = let e : min b 64 ≡ b = omega arith in rw e (mod-eq_of_lt h)

same_int64 : (q : ℕ) → q < 256 → to_int64 q ≡ q
unfolding to_int64
same_int64 q f = ground arith

pub value_from_index_lem :
    (b q : ℕ) → b ≤ 56 → q < 256 → q * 2 ^ b < 2 ^ 64 → value_from_index b q ≡ q * 2 ^ b
unfolding value_from_index
value_from_index_lem b q l f h = rw (shift_of b l, same_int64 q f) (shifted_left q b l h)

small_sub_bucket : (q : ℕ) → q < 256 → lt32 q get_sub_bucket_count ≡ true
unfolding get_sub_bucket_count get_sub_bucket_half_count_magnitude ceil_log2
small_sub_bucket q f = ground arith

size_lem :
    (v b q : ℕ) → Position v b q → size_of_equivalent_value_range_given_bucket_idx v b ≡ 2 ^ b
unfolding size_of_equivalent_value_range_given_bucket_idx
size_lem v b q p =
    rw (p.sub_bucket, small_sub_bucket q p.few, unit_shift_of b p.low)
      (shifted_left 1 b p.low (omega (arith, grown b 56 p.low)) ∙ omega arith)

pub record Spans (v b q : ℕ) : Type 0 where
  pub index : counts_index_for v ≡ b * 128 + q
  pub lowest : lowest_equivalent_value_given_bucket_idx v (get_bucket_index v) ≡ q * 2 ^ b
  pub highest : highest_equivalent_value v + 1 ≡ q * 2 ^ b + 2 ^ b

lowest_lem :
    (v b q : ℕ)
    → v < 2 ^ 63
    → Position v b q
    → lowest_equivalent_value_given_bucket_idx v b ≡ q * 2 ^ b
unfolding lowest_equivalent_value_given_bucket_idx
lowest_lem v b q h p =
    rw (p.sub_bucket) (value_from_index_lem b q p.low p.few (omega (arith, p.from)))

pub Position-Spans : (v b q : ℕ) → v < 2 ^ 63 → Position v b q → Spans v b q
unfolding counts_index_for highest_equivalent_value next_non_equivalent_value add64 sub64
Position-Spans v b q h p = record {
  index = rw (p.bucket, p.sub_bucket) (counts_index_lem b q p.low p.few p.half);
  lowest = rw (p.bucket) (lowest_lem v b q h p);
  highest =
      rw (p.bucket, lowest_lem v b q h p, size_lem v b q p)
        (omega (arith, p.from, grown b 56 p.low, one-le-pow b 2 (omega arith)));
}
