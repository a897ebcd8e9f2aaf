-- ===== src/Codec/Key/Reads.antt =====
-- What `UnmarshalBinary` of aggregators/codec.go reads from data of each length.
use apm_aggregation.Base.{
  ℕ, ◌-◌, ◌*◌, ◌<◌, ◌≤◌, ◌≡◌, refl, ap, ◌∙◌, none, some, List, inl, inr, arith,
}
use apm_aggregation.Base.Lists.{length, take, drop, take_all, length-take, length-drop}
use apm_aggregation.Base.Tests.{Bool-cases, ltb}
use apm_aggregation.Codec.Key.{
  CombinedMetricsKey, second, read_big_endian, slice, slice?, read_uint, read_fields,
  insufficient_length, panics, key, unmarshal_binary,
}

slice?-some :
    (data_ : List ℕ) (lo hi : ℕ)
    → lo ≤ hi
    → hi ≤ length data_
    → slice? data_ lo hi ≡ some (slice data_ lo hi)
unfolding slice?
slice?-some data_ lo hi h k = ground (arith, h, k)

slice?-none : (data_ : List ℕ) (lo hi : ℕ) → length data_ < hi → slice? data_ lo hi ≡ none
unfolding slice?
slice?-none data_ lo hi h = ground (arith, h)

pub length-slice :
    (data_ : List ℕ) (lo hi : ℕ) → hi ≤ length data_ → length (slice data_ lo hi) ≡ hi - lo
unfolding slice
length-slice data_ lo hi h =
    omega (arith, h, length-take (hi - lo) (drop lo data_), length-drop lo data_)

read_uint-some :
    (n : ℕ) (bytes : List ℕ)
    → n ≤ length bytes
    → read_uint n bytes ≡ some (read_big_endian 0 (take n bytes))
unfolding read_uint
read_uint-some n bytes h = ground (arith, h)

read_uint-none : (n : ℕ) (bytes : List ℕ) → length bytes < n → read_uint n bytes ≡ none
unfolding read_uint
read_uint-none n bytes h = ground (arith, h)

-- A whole slice is read as a number.
read_uint-slice :
    (data_ : List ℕ) (lo hi n : ℕ)
    → hi - lo ≡ n
    → hi ≤ length data_
    → read_uint n (slice data_ lo hi) ≡ some (read_big_endian 0 (slice data_ lo hi))
read_uint-slice data_ lo hi n e h =
    let l = length-slice data_ lo hi h in
    read_uint-some n (slice data_ lo hi) (omega (arith, l, e))
    ∙ ap (λ bs. some (read_big_endian 0 bs)) (take_all n (slice data_ lo hi) (omega (arith, l, e)))

-- The data from an offset on, and its first two bytes.
rest_lem : (data_ : List ℕ) → slice data_ 26 (length data_) ≡ drop 26 data_
unfolding slice
rest_lem data_ = take_all (length data_ - 26) (drop 26 data_) (omega (arith, length-drop 26 data_))

partition_lem :
    (data_ : List ℕ)
    → 28 ≤ length data_
    → read_uint 2 (slice data_ 26 (length data_)) ≡ some (read_big_endian 0 (slice data_ 26 28))
unfolding slice
partition_lem data_ h =
    rw (rest_lem data_) (read_uint-some 2 (drop 26 data_) (omega (arith, h, length-drop 26 data_)))

-- The key at the four offsets.
abbrev pub decoded : List ℕ → CombinedMetricsKey
decoded data_ = record {
  interval = read_big_endian 0 (slice data_ 0 2) * second;
  unix = read_big_endian 0 (slice data_ 2 10);
  nanosecond = 0;
  partition_id = read_big_endian 0 (slice data_ 26 28);
  id = slice data_ 10 26;
}

module _ (data_ : List ℕ) where
  fields_lem : 28 ≤ length data_ → read_fields data_ ≡ some (decoded data_)
  unfolding read_fields
  fields_lem h =
      rw
        (
          slice?-some data_ 0 2 (omega arith) (omega (arith, h)),
          read_uint-slice data_ 0 2 2 refl (omega (arith, h)),
          slice?-some data_ 2 10 (omega arith) (omega (arith, h)),
          read_uint-slice data_ 2 10 8 refl (omega (arith, h)),
          slice?-some data_ 10 26 (omega arith) (omega (arith, h)),
          slice?-some data_ 26 (length data_) (omega (arith, h)) (omega arith),
          partition_lem data_ h,
        )
        refl

  short_id_lem : 12 ≤ length data_ → length data_ < 26 → read_fields data_ ≡ none
  unfolding read_fields
  short_id_lem h k =
      rw
        (
          slice?-some data_ 0 2 (omega arith) (omega (arith, h)),
          read_uint-slice data_ 0 2 2 refl (omega (arith, h)),
          slice?-some data_ 2 10 (omega arith) (omega (arith, h)),
          read_uint-slice data_ 2 10 8 refl (omega (arith, h)),
          slice?-none data_ 10 26 k,
        )
        refl

  short_partition_lem : 26 ≤ length data_ → length data_ < 28 → read_fields data_ ≡ none
  unfolding read_fields
  short_partition_lem h k =
      rw
        (
          slice?-some data_ 0 2 (omega arith) (omega (arith, h)),
          read_uint-slice data_ 0 2 2 refl (omega (arith, h)),
          slice?-some data_ 2 10 (omega arith) (omega (arith, h)),
          read_uint-slice data_ 2 10 8 refl (omega (arith, h)),
          slice?-some data_ 10 26 (omega arith) (omega (arith, h)),
          slice?-some data_ 26 (length data_) (omega (arith, h)) (omega arith),
          read_uint-none 2 (slice data_ 26 (length data_))
              (omega (arith, k, length-slice data_ 26 (length data_) (omega arith))),
        )
        refl

  pub unmarshal_binary-decoded : 28 ≤ length data_ → unmarshal_binary data_ ≡ key (decoded data_)
  unfolding unmarshal_binary
  unmarshal_binary-decoded h = rw (fields_lem h) (ground (arith, h))

  pub unmarshal_binary-short : length data_ < 12 → unmarshal_binary data_ ≡ insufficient_length
  unfolding unmarshal_binary
  unmarshal_binary-short h = ground (arith, h)

  pub unmarshal_binary-panics :
      12 ≤ length data_ → length data_ < 28 → unmarshal_binary data_ ≡ panics
  unfolding unmarshal_binary
  unmarshal_binary-panics h k =
      let none_read : read_fields data_ ≡ none = elim (Bool-cases (ltb (length data_) 26)) [
        | inl short ↦ short_id_lem h (ground (arith, short))
        | inr more ↦ short_partition_lem (ground (arith, more)) k
      ] in
      rw none_read (ground (arith, h))
