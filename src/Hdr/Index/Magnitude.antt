-- ===== src/Hdr/Index/Magnitude.antt =====
-- The bucket and the sub-bucket of a value, described by the powers of two around the value.
use Prim.Native.Nat.{bit_or}
use native.Mathlib.Nat.{
  one-le-pow, mod-lt, mod-add-div', le-div_iff_mul-le, div-mul-le_self, lt_of_mul-lt-mul_right,
}
use apm_aggregation.Base.{
  ℕ, zero, suc, ◌+◌, ◌-◌, ◌*◌, ◌/◌, ◌^◌, ◌≤◌, ◌<◌, ◌≡◌, refl, ap, subst, ◌⊎◌, inl, inr, ◌∙◌, arith,
  min,
}
use apm_aggregation.Base.Tests.{compare_cases}
use apm_aggregation.Base.Words.{sub64, to_int32, to_int64, add64}
use apm_aggregation.Base.Bits.{
  bit_or-low_byte, digits_of, leading_zeros64, digits_of-HasDigits, HasDigits, double, grown,
  shift_right64,
}
use apm_aggregation.Hdr.Index.{
  get_bucket_index, get_sub_bucket_idx, get_sub_bucket_mask, get_unit_magnitude,
}

-- Bucket `b` holds the values that have `b + 8` binary digits, bucket 0 those with fewer too.
pub record InBucket (v b : ℕ) : Type 0 where
  pub above : (b ≡ 0) ⊎ (128 * 2 ^ b ≤ v)
  pub below : v < 256 * 2 ^ b

pub seven_more : (b : ℕ) → 2 ^ (b + 7) ≡ 128 * 2 ^ b
seven_more zero = refl
seven_more (suc b) =
    let e : 2 ^ (suc b + 7) ≡ 2 ^ suc (b + 7) = ap (◌^◌ 2) (omega arith) in
    omega (arith, e, double (b + 7), double b, seven_more b)

masked_at : (v b : ℕ) → HasDigits (v / 256 * 256 + 255) (b + 7) → InBucket v b
masked_at v zero d = record { above = inl refl; below = omega (arith, d.below) }
masked_at v (suc b) d = record {
  above = inr (omega (arith, d.above, seven_more (suc b), double b));
  below = omega (arith, d.below, seven_more (suc b), double b);
}

masked : (v k : ℕ) → HasDigits (v / 256 * 256 + 255) k → (b : ℕ) × (k ≡ b + 7) × InBucket v b
masked v k d = elim (compare_cases k 7) [
  | inl low ↦ absurd (omega (arith, d.below, grown k 6 (omega arith)))
  | inr up ↦
      let e : k ≡ k - 7 + 7 = ground arith in
      (k - 7, e, masked_at v (k - 7) (subst (HasDigits (v / 256 * 256 + 255)) e d))
]

index_of_digits :
    (v k : ℕ) → digits_of 64 (bit_or v 255) ≡ suc k → 7 ≤ k → k < 64 → get_bucket_index v ≡ k - 7
unfolding get_bucket_index leading_zeros64 sub64 to_int32 get_sub_bucket_mask
index_of_digits v k e l h = omega (arith, e)

pub bucket_of : (v : ℕ) → v < 2 ^ 64 → (b : ℕ) × (get_bucket_index v ≡ b) × (b ≤ 56) × InBucket v b
bucket_of v h =
    let (k, e, f, d) = digits_of-HasDigits 64 (v / 256 * 256 + 255) (omega arith) (omega arith) in
    let (b, g, i) = masked v k d in
    (
      b,
      index_of_digits v k (rw (bit_or-low_byte v) e) (omega arith) f ∙ omega arith,
      omega arith,
      i,
    )

-- Where a value stands: its bucket `b` and its sub-bucket `q`.
pub record Position (v b q : ℕ) : Type 0 where
  pub low : b ≤ 56
  pub bucket : get_bucket_index v ≡ b
  pub sub_bucket : get_sub_bucket_idx v b ≡ q
  pub from : q * 2 ^ b ≤ v
  pub to : v < q * 2 ^ b + 2 ^ b
  pub few : q < 256
  pub half : (b ≡ 0) ⊎ (128 ≤ q)

shift_of : (b : ℕ) → b ≤ 56 → add64 (to_int64 b) get_unit_magnitude ≡ b
unfolding to_int64 add64 get_unit_magnitude
shift_of b l = ground arith

shifted : (v b : ℕ) → v < 2 ^ 63 → b ≤ 56 → shift_right64 v b ≡ v / 2 ^ b
unfolding shift_right64
shifted v b h l = let e : min b 63 ≡ b = omega arith in rw e (ground arith)

sub_bucket_of :
    (v b : ℕ) → v < 2 ^ 63 → b ≤ 56 → v / 2 ^ b < 256 → get_sub_bucket_idx v b ≡ v / 2 ^ b
unfolding get_sub_bucket_idx to_int32
sub_bucket_of v b h l f = rw (shift_of b l, shifted v b h l) (omega arith)

positive : (b : ℕ) → 0 < 2 ^ b
positive b = one-le-pow b 2 (omega arith)

quotient_lt : (v p n : ℕ) → 0 < p → v < n * p → v / p < n
quotient_lt v p n z h = lt_of_mul-lt-mul_right p (omega (arith, div-mul-le_self v p))

quotient_to : (v p : ℕ) → 0 < p → v < v / p * p + p
quotient_to v p z = omega (arith, mod-add-div' v p, mod-lt v z)

half_from : (v b : ℕ) → InBucket v b → (b ≡ 0) ⊎ (128 ≤ v / 2 ^ b)
half_from v b i = elim i.above [
  | inl zero_bucket ↦ inl zero_bucket
  | inr up ↦ inr ((le-div_iff_mul-le (positive b)).1 up)
]

pub Position-of : (v : ℕ) → v < 2 ^ 63 → (b q : ℕ) × Position v b q
Position-of v h =
    let (b, e, l, i) = bucket_of v (omega arith) in
    let f = quotient_lt v (2 ^ b) 256 (positive b) i.below in
    (
      b,
      v / 2 ^ b,
      record {
        low = l;
        bucket = e;
        sub_bucket = sub_bucket_of v b h l f;
        from = div-mul-le_self v (2 ^ b);
        to = quotient_to v (2 ^ b) (positive b);
        few = f;
        half = half_from v b i;
      },
    )
