-- ===== src/Hdr/Iterator/Place.antt =====
-- Where the iterator stands after a number of steps: the bucket and the sub-bucket of an index, and
-- the values that the index holds.
use apm_aggregation.Base.{
  ℕ, zero, suc, ◌+◌, ◌-◌, ◌*◌, ◌/◌, ◌%◌, ◌^◌, ◌≤◌, ◌<◌, ◌≡◌, refl, sym, ap, ◌∙◌, ◌⊎◌, inl, inr,
  true, arith,
}
use apm_aggregation.Base.Tests.{ltb, compare_cases, if◌then◌else◌}
use apm_aggregation.Base.Words.{add32, lt32}
use apm_aggregation.Base.Bits.{grown}
use apm_aggregation.Hdr.Index.{
  get_sub_bucket_count, get_sub_bucket_half_count, get_bucket_count, value_from_index,
  counts_index_for, highest_equivalent_value,
}
use apm_aggregation.Hdr.Index.Magnitude.{Position, Position-of}
use apm_aggregation.Hdr.Index.Values.{Position-Spans, value_from_index_lem}
use apm_aggregation.Hdr.Index.Range.{end_of, positive, same_bar, same_place, index-lt}
use apm_aggregation.Hdr.Iterator.{
  Iterator, iterator, next_sub_bucket, set_value, next_count_at_idx, advance_by,
}

abbrev at : ℕ → ℕ → ℕ → Iterator
at b q highest = record {
  bucket_idx = b;
  sub_bucket_idx = q;
  value_from_idx = q * 2 ^ b;
  highest_equivalent_value = highest;
}

-- The bucket and the sub-bucket of an index.
unfoldable pub bucket_at : ℕ → ℕ
bucket_at n = if ltb n 256 then 0 else n / 128 - 1

unfoldable pub sub_bucket_at : ℕ → ℕ
sub_bucket_at n = if ltb n 256 then n else n % 128 + 128

-- The lowest and the highest value of an index.
unfoldable pub value_at : ℕ → ℕ
value_at n = sub_bucket_at n * 2 ^ bucket_at n

unfoldable pub highest_at : ℕ → ℕ
highest_at n = value_at n + 2 ^ bucket_at n - 1

abbrev pub place : ℕ → ℕ → Iterator
place n highest = at (bucket_at n) (sub_bucket_at n) highest

small : (b q : ℕ) → b ≤ 24 → q < 256 → q * 2 ^ b < 2 ^ 33
small b q l f = omega (arith, end_of (2 ^ b) q f, grown b 24 l)

set_value-at :
    (b q v highest : ℕ)
    → b ≤ 24
    → q < 256
    → set_value (record {
      bucket_idx = b;
      sub_bucket_idx = q;
      value_from_idx = v;
      highest_equivalent_value = highest;
    })
      ≡ (at b q highest, true)
unfolding set_value get_bucket_count
set_value-at b q v highest l f =
    let e : lt32 b get_bucket_count ≡ true = ground arith in
    rw (e, value_from_index_lem b q (omega arith) f (omega (arith, small b q l f))) refl

next_inner :
    (b q highest : ℕ)
    → b ≤ 24
    → q < 255
    → next_count_at_idx (at b q highest) ≡ (at b (suc q) highest, true)
unfolding next_count_at_idx next_sub_bucket add32 get_sub_bucket_count
next_inner b q highest l f =
    let e : lt32 (add32 q 1) get_sub_bucket_count ≡ true = ground arith in
    let d : add32 q 1 ≡ suc q = omega arith in
    rw (e, d) (set_value-at b (suc q) (q * 2 ^ b) highest l (omega arith))

next_outer :
    (b highest : ℕ) → b ≤ 23 → next_count_at_idx (at b 255 highest) ≡ (at (suc b) 128 highest, true)
unfolding next_count_at_idx next_sub_bucket add32 get_sub_bucket_half_count
next_outer b highest l =
    let d : add32 b 1 ≡ suc b = omega arith in
    rw d (set_value-at (suc b) 128 (255 * 2 ^ b) highest (omega arith) (omega arith))

pub started : (next_count_at_idx iterator).0 ≡ place 0 0
unfolding next_count_at_idx next_sub_bucket iterator add32 get_sub_bucket_count
    get_sub_bucket_half_count get_bucket_count value_from_index bucket_at sub_bucket_at
started = refl

-- The bucket and the sub-bucket of an index are those whose index it is.
pub record IsPlace (n : ℕ) : Type 0 where
  pub low : bucket_at n ≤ 24
  pub few : sub_bucket_at n < 256
  pub half : (bucket_at n ≡ 0) ⊎ (128 ≤ sub_bucket_at n)
  pub index : bucket_at n * 128 + sub_bucket_at n ≡ n

half_at : (n : ℕ) → (bucket_at n ≡ 0) ⊎ (128 ≤ sub_bucket_at n)
unfolding bucket_at sub_bucket_at
half_at n = elim (compare_cases n 256) [
  | inl low ↦ inl (ground arith)
  | inr up ↦ inr (ground arith)
]

pub index-IsPlace : (n : ℕ) → n < 3328 → IsPlace n
unfolding bucket_at sub_bucket_at
index-IsPlace n h = record {
  low = ground arith;
  few = ground arith;
  half = half_at n;
  index = ground arith;
}

suc_inner :
    (n : ℕ)
    → sub_bucket_at n < 255
    → (bucket_at (suc n) ≡ bucket_at n) × (sub_bucket_at (suc n) ≡ suc (sub_bucket_at n))
unfolding bucket_at sub_bucket_at
suc_inner n h = (ground arith, ground arith)

suc_outer :
    (n : ℕ)
    → sub_bucket_at n ≡ 255
    → (bucket_at (suc n) ≡ suc (bucket_at n)) × (sub_bucket_at (suc n) ≡ 128)
unfolding bucket_at sub_bucket_at
suc_outer n h = (ground arith, ground arith)

-- One step from an index to the next.
next_place :
    (n highest : ℕ)
    → suc n < 3328
    → next_count_at_idx (place n highest) ≡ (place (suc n) highest, true)
next_place n highest h =
    let p = index-IsPlace n (omega arith) in
    elim (compare_cases (sub_bucket_at n) 255) [
      | inl low ↦
          let (e, f) = suc_inner n low in
          rw (e, f) (next_inner (bucket_at n) (sub_bucket_at n) highest p.low low)
      | inr (inl same) ↦
          let (e, f) = suc_outer n same in
          rw (e, f, same) (next_outer (bucket_at n) highest (omega (arith, p.index)))
      | inr (inr high) ↦ absurd (omega (arith, p.few))
    ]

-- The highest value of an index, as it is computed from any of the values there.
highest_at_lem :
    (n v c r : ℕ)
    → n < 3328
    → v < 2 ^ 63
    → Position v c r
    → c * 128 + r ≡ n
    → highest_at n ≡ highest_equivalent_value v
unfolding highest_at value_at
highest_at_lem n v c r h g s e =
    let p = index-IsPlace n h in
    let (f, k) =
      same_place (bucket_at n) (sub_bucket_at n) c r p.few p.half s.few s.half (e ∙ sym p.index) in
    let x = Position-Spans v c r g s in
    omega
      (arith, x.highest, ap (λ (z : ℕ). r * 2 ^ z + 2 ^ z) f, ap (λ (z : ℕ). z * 2 ^ bucket_at n) k)

highest_equivalent_value-value_at :
    (n : ℕ) → n < 3328 → highest_equivalent_value (value_at n) ≡ highest_at n
unfolding value_at
highest_equivalent_value-value_at n h =
    let p = index-IsPlace n h in
    let v = sub_bucket_at n * 2 ^ bucket_at n in
    let bound = small (bucket_at n) (sub_bucket_at n) p.low p.few in
    let (c, r, s) = Position-of v (omega (arith, bound)) in
    let same =
      same_bar v (bucket_at n) (sub_bucket_at n) c r s p.few p.half (omega arith)
        (omega (arith, positive (bucket_at n))) in
    sym (highest_at_lem n v c r h (omega (arith, bound)) s (same ∙ p.index))

pub highest_at-counts_index_for :
    (v : ℕ) → v < 2 ^ 32 → highest_at (counts_index_for v) ≡ highest_equivalent_value v
highest_at-counts_index_for v h =
    let (c, r, s) = Position-of v (omega arith) in
    let x = Position-Spans v c r (omega arith) s in
    highest_at_lem (counts_index_for v) v c r (index-lt v h) (omega arith) s (sym x.index)

-- `c` further steps from an index, and the highest value there.
pub advance_by-place :
    (c n highest : ℕ)
    → n + c < 3328
    → advance_by c (place n highest) ≡ (place (n + c) (highest_at (n + c)), true)
unfolding advance_by value_at
advance_by-place zero n highest h =
    let e : n + 0 ≡ n = omega arith in
    rw e (rw (highest_equivalent_value-value_at n (omega arith)) refl)
advance_by-place (suc c) n highest h =
    let e : n + suc c ≡ suc n + c = omega arith in
    rw (next_place n highest (omega arith), e) (advance_by-place c (suc n) highest (omega arith))
