-- ===== src/Hdr/Index/Range.antt =====
-- Which values the counts array of the histogram holds, and which of them share an index.
use native.Mathlib.Nat.{one-le-pow, mul-le-mul_right}
use apm_aggregation.Base.{
  ℕ, suc, ◌+◌, ◌-◌, ◌*◌, ◌^◌, ◌≤◌, ◌<◌, ◌≡◌, sym, subst, ◌∙◌, ◌⊎◌, inl, inr, ◌↔◌, arith,
}
use apm_aggregation.Base.Tests.{compare_cases}
use apm_aggregation.Base.Bits.{double, grown, shift_right64, shift_left32}
use apm_aggregation.Base.Words.{to_int32, to_int64, add32, sub32, add64}
use apm_aggregation.Hdr.Index.{
  get_bucket_index, get_sub_bucket_idx, get_unit_magnitude, floor_log2, ceil_log2,
  get_sub_bucket_half_count_magnitude, get_sub_bucket_half_count, counts_index, counts_index_for,
  lowest_equivalent_value_given_bucket_idx, highest_equivalent_value,
}
use apm_aggregation.Hdr.Index.Magnitude.{bucket_of, Position, Position-of}
use apm_aggregation.Hdr.Index.Values.{Spans, Position-Spans}

-- The smallest value that is recorded as `v` is.
abbrev pub lowest_of : ℕ → ℕ
lowest_of v = lowest_equivalent_value_given_bucket_idx v (get_bucket_index v)

pub positive : (b : ℕ) → 0 < 2 ^ b
positive b = one-le-pow b 2 (omega arith)

times : (p m n : ℕ) → m ≤ n → m * p ≤ n * p
times p m n h = mul-le-mul_right p h

-- The end of a bar, and where the upper half of a bucket starts.
pub end_of : (p q : ℕ) → q < 256 → q * p + p ≤ 256 * p
end_of p q f = omega (arith, times p (suc q) 256 f)

bucket_low : (v b q : ℕ) → v < 2 ^ 32 → Position v b q → b < 25
bucket_low v b q h p = elim (compare_cases b 25) [
  | inl low ↦ low
  | inr up ↦ elim p.half [
    | inl zero_bucket ↦ omega arith
    | inr half ↦ absurd (omega (arith, p.from, times (2 ^ b) 128 q half, grown 25 b (omega arith)))
  ]
]

bucket_high : (v b q : ℕ) → 2 ^ 32 ≤ v → Position v b q → 25 ≤ b
bucket_high v b q h p = elim (compare_cases b 25) [
  | inl low ↦ absurd (omega (arith, p.to, end_of (2 ^ b) q p.few, grown b 24 (omega arith)))
  | inr up ↦ omega arith
]

negative_bucket : (v : ℕ) → 2 ^ 63 ≤ v → v < 2 ^ 64 → get_bucket_index v ≡ 56
negative_bucket v h g =
    let (b, e, l, i) = bucket_of v g in
    elim (compare_cases b 56) [
      | inl low ↦ absurd (omega (arith, i.below, grown b 55 (omega arith)))
      | inr up ↦ e ∙ omega arith
    ]

negative_sub_bucket : (v : ℕ) → 2 ^ 63 ≤ v → v < 2 ^ 64 → 2 ^ 32 - 128 ≤ get_sub_bucket_idx v 56
unfolding get_sub_bucket_idx shift_right64 to_int32 to_int64 add64 get_unit_magnitude floor_log2
negative_sub_bucket v h g = ground arith

sub_bucket-lt : (v b : ℕ) → get_sub_bucket_idx v b < 2 ^ 32
unfolding get_sub_bucket_idx to_int32
sub_bucket-lt v b = omega arith

negative_counts_index :
    (q : ℕ)
    → 2 ^ 32 - 128 ≤ q
    → q < 2 ^ 32
    → (3328 ≤ counts_index 56 q) × (counts_index 56 q < 2 ^ 31)
unfolding counts_index shift_left32 add32 sub32 get_sub_bucket_half_count_magnitude ceil_log2
    get_sub_bucket_half_count
negative_counts_index q h g = (ground arith, ground arith)

negative_index :
    (v : ℕ) → 2 ^ 63 ≤ v → v < 2 ^ 64 → (3328 ≤ counts_index_for v) × (counts_index_for v < 2 ^ 31)
unfolding counts_index_for
negative_index v h g = rw (negative_bucket v h g) (
    negative_counts_index (get_sub_bucket_idx v 56) (negative_sub_bucket v h g)
      (sub_bucket-lt v 56))

-- Exactly the values below 2 ^ 32 have an index in the counts array, of 3328 places: the others,
-- negative ones among them, have a larger index.
pub counts_index_for_range :
    (v : ℕ)
    → v < 2 ^ 64
    → ((v < 2 ^ 32) × (counts_index_for v < 3328))
      ⊎ ((2 ^ 32 ≤ v) × (3328 ≤ counts_index_for v) × (counts_index_for v < 2 ^ 31))
counts_index_for_range v h = elim (compare_cases v (2 ^ 63)) [
  | inl low ↦
      let (b, q, p) = Position-of v low in
      let x = Position-Spans v b q low p in
      elim (compare_cases v (2 ^ 32)) [
        | inl small ↦ inl (small, omega (arith, x.index, p.few, bucket_low v b q small p))
        | inr large ↦ inr (
          omega arith,
          omega (arith, x.index, p.few, p.half, bucket_high v b q (omega arith) p),
          omega (arith, x.index, p.few, p.low),
        )
      ]
  | inr up ↦ let n = negative_index v (omega arith) h in inr (omega arith, n.0, n.1)
]

starts_after : (b q c r : ℕ) → q < 256 → (c ≡ 0) ⊎ (128 ≤ r) → b < c → q * 2 ^ b + 2 ^ b ≤ r * 2 ^ c
starts_after b q c r f s l = elim s [
  | inl zero_bucket ↦ absurd (omega arith)
  | inr half ↦
      omega (arith, end_of (2 ^ b) q f, times (2 ^ c) 128 r half, double b, grown (suc b) c l)
]

before : (p q r : ℕ) → q < r → q * p + p ≤ r * p
before p q r l = omega (arith, times p (suc q) r l)

same_block : (p q r w : ℕ) → q * p ≤ w → w < q * p + p → r * p ≤ w → w < r * p + p → q ≡ r
same_block p q r w a b c d = elim (compare_cases q r) [
  | inl low ↦ absurd (omega (arith, before p q r low))
  | inr (inl same) ↦ same
  | inr (inr high) ↦ absurd (omega (arith, before p r q high))
]

pub same_bar :
    (w b q c r : ℕ)
    → Position w c r
    → q < 256
    → (b ≡ 0) ⊎ (128 ≤ q)
    → q * 2 ^ b ≤ w
    → w < q * 2 ^ b + 2 ^ b
    → c * 128 + r ≡ b * 128 + q
same_bar w b q c r s f o l u = elim (compare_cases b c) [
  | inl low ↦ absurd (omega (arith, s.from, starts_after b q c r f s.half low))
  | inr (inl same) ↦
      let t = subst (λ (x : ℕ). Position w x r) (sym same) s in
      omega (arith, same, same_block (2 ^ b) q r w l u t.from t.to)
  | inr (inr high) ↦ absurd (omega (arith, s.to, starts_after c r b q s.few o high))
]

pub same_place :
    (b q c r : ℕ)
    → q < 256
    → (b ≡ 0) ⊎ (128 ≤ q)
    → r < 256
    → (c ≡ 0) ⊎ (128 ≤ r)
    → c * 128 + r ≡ b * 128 + q
    → (c ≡ b) × (r ≡ q)
same_place b q c r f o g t e = (omega (arith, o, t), omega (arith, o, t))

between :
    (v w b q c r : ℕ)
    → Position w c r
    → Spans v b q
    → c ≡ b
    → r ≡ q
    → (lowest_of v ≤ w) × (w ≤ highest_equivalent_value v)
between v w b q c r s x e f =
    let t = subst (λ (n : ℕ). Position w b n) f (subst (λ (n : ℕ). Position w n r) e s) in
    (omega (arith, x.lowest, t.from), omega (arith, x.highest, t.to))

-- Two values that are not negative have the same index exactly when one lies between the lowest and
-- the highest value that the histogram takes for the other.
pub counts_index_for_iff :
    (v w : ℕ)
    → v < 2 ^ 63
    → w < 2 ^ 63
    → (counts_index_for w ≡ counts_index_for v)
      ↔ ((lowest_of v ≤ w) × (w ≤ highest_equivalent_value v))
counts_index_for_iff v w h g =
    let (b, q, p) = Position-of v h in
    let (c, r, s) = Position-of w g in
    let x = Position-Spans v b q h p in
    let y = Position-Spans w c r g s in
    (
      λ e.
          let (same, equal) =
            same_place b q c r p.few p.half s.few s.half (sym y.index ∙ e ∙ x.index) in
          between v w b q c r s x same equal,
      λ (l, u).
          y.index
          ∙ same_bar w b q c r s p.few p.half (omega (arith, x.lowest)) (omega (arith, x.highest))
          ∙ sym x.index,
    )

pub index-lt : (v : ℕ) → v < 2 ^ 32 → counts_index_for v < 3328
index-lt v h = elim (counts_index_for_range v (omega arith)) [
  | inl inside ↦ inside.1
  | inr outside ↦ absurd (omega (arith, outside.0))
]
