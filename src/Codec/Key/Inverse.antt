-- ===== src/Codec/Key/Inverse.antt =====
-- From data to a key and back, aggregators/codec.go: which data `UnmarshalBinary` refuses, panics on,
-- and reads.
use apm_aggregation.Base.{
  ℕ, zero, suc, ◌+◌, ◌-◌, ◌*◌, ◌/◌, ◌%◌, ◌^◌, ◌<◌, ◌≤◌, ◌≡◌, refl, ap, sym, ◌∙◌, some, List, [],
  ◌∷◌, ◌++◌, ◌⊎◌, inl, inr, arith,
}
use apm_aggregation.Base.Lists.{length, take, drop, All}
use apm_aggregation.Base.Tests.{Bool-cases, ltb}
use apm_aggregation.Codec.Key.{
  CombinedMetricsKey, combined_metrics_key_encoded_size, big_endian, read_big_endian, slice,
  marshal_binary_to_sized_buffer, insufficient_length, panics, key, unmarshal_binary,
}
use apm_aggregation.Codec.Key.Reads.{
  decoded, length-slice, unmarshal_binary-decoded, unmarshal_binary-short, unmarshal_binary-panics,
}
use apm_aggregation.Codec.Key.RoundTrip.{
  IsWhole, append_nil, append_assoc, marshal_lem, whole_seconds, layout,
}

abbrev pub AreBytes : List ℕ → Type 0
AreBytes = All (λ b. b < 256)

-- Bytes read into a number that is written again, after the last `n` bytes of what was read before.
big_endian-read_acc :
    (n acc : ℕ) (bs : List ℕ)
    → AreBytes bs
    → big_endian (length bs + n) (read_big_endian acc bs) ≡ big_endian n acc ++ bs
unfolding big_endian read_big_endian
big_endian-read_acc n acc [] a =
    let none_read : 0 + n ≡ n = omega arith in
    ap (λ m. big_endian m acc) none_read ∙ sym (append_nil (big_endian n acc))
big_endian-read_acc n acc (b ∷ bs) a =
    let digit : (acc * 256 + b) % 256 ≡ b = omega (arith, a.0) in
    let high : (acc * 256 + b) / 256 ≡ acc = omega (arith, a.0) in
    let more : suc (length bs) + n ≡ length bs + suc n = omega arith in
    ap (λ m. big_endian m (read_big_endian (acc * 256 + b) bs)) more
    ∙ big_endian-read_acc (suc n) (acc * 256 + b) bs a.1
    ∙ rw (digit, high) (append_assoc (big_endian n acc) (b ∷ []) bs)

big_endian-read :
    (n : ℕ) (bs : List ℕ) → length bs ≡ n → AreBytes bs → big_endian n (read_big_endian 0 bs) ≡ bs
unfolding big_endian
big_endian-read n bs e a =
    let size : n ≡ length bs + 0 = omega (arith, e) in
    ap (λ m. big_endian m (read_big_endian 0 bs)) size ∙ big_endian-read_acc 0 0 bs a

-- The bound `n` bytes further.
abbrev bytes_further : ℕ → ℕ → ℕ
bytes_further zero bound = bound
bytes_further (suc n) bound = bytes_further n (bound * 256)

read_big_endian-lt :
    (n acc bound : ℕ) (bs : List ℕ)
    → length bs ≡ n
    → AreBytes bs
    → acc < bound
    → read_big_endian acc bs < bytes_further n bound
unfolding read_big_endian
read_big_endian-lt zero acc bound [] e a h = h
read_big_endian-lt zero acc bound (b ∷ bs) e a h = absurd (omega (arith, e))
read_big_endian-lt (suc n) acc bound [] e a h = absurd (omega (arith, e))
read_big_endian-lt (suc n) acc bound (b ∷ bs) e a h =
    read_big_endian-lt n (acc * 256 + b) (bound * 256) bs (omega (arith, e)) a.1
      (omega (arith, h, a.0))

take-AreBytes : (n : ℕ) (bs : List ℕ) → AreBytes bs → AreBytes (take n bs)
take-AreBytes zero bs a = tt
take-AreBytes (suc n) [] a = tt
take-AreBytes (suc n) (b ∷ bs) a = (a.0, take-AreBytes n bs a.1)

drop-AreBytes : (n : ℕ) (bs : List ℕ) → AreBytes bs → AreBytes (drop n bs)
drop-AreBytes zero bs a = a
drop-AreBytes (suc n) [] a = tt
drop-AreBytes (suc n) (b ∷ bs) a = drop-AreBytes n bs a.1

slice-AreBytes : (bs : List ℕ) (lo hi : ℕ) → AreBytes bs → AreBytes (slice bs lo hi)
unfolding slice
slice-AreBytes bs lo hi a = take-AreBytes (hi - lo) (drop lo bs) (drop-AreBytes lo bs a)

take_nil : (n : ℕ) → take {A = ℕ} n [] ≡ []
take_nil zero = refl
take_nil (suc n) = refl

-- The bytes before an offset and those after it.
take-slice : (lo hi : ℕ) (bs : List ℕ) → lo ≤ hi → take lo bs ++ slice bs lo hi ≡ take hi bs
unfolding slice
take-slice zero hi bs h = ap (λ m. take m bs) (omega arith)
take-slice (suc lo) zero [] h = take_nil (zero - suc lo)
take-slice (suc lo) (suc hi) [] h = take_nil (suc hi - suc lo)
take-slice (suc lo) zero (b ∷ bs) h = absurd (omega (arith, h))
take-slice (suc lo) (suc hi) (b ∷ bs) h =
    let less : suc hi - suc lo ≡ hi - lo = omega arith in
    ap (λ n. b ∷ (take lo bs ++ take n (drop lo bs))) less
    ∙ ap (◌∷◌ b) (take-slice lo hi bs (omega (arith, h)))

layout-slices :
    (bs : List ℕ)
    → layout (slice bs 0 2) (slice bs 2 10) (slice bs 10 26) (slice bs 26 28) ≡ take 28 bs
layout-slices bs =
    let first : slice bs 0 2 ≡ take 2 bs = take-slice 0 2 bs (omega arith) in
    rw
      (
        first,
        take-slice 2 10 bs (omega arith),
        take-slice 10 26 bs (omega arith),
        take-slice 26 28 bs (omega arith),
      )
      refl

module _ (data_ : List ℕ) (a : AreBytes data_) (h : 28 ≤ length data_) where
  seconds-lt : read_big_endian 0 (slice data_ 0 2) < 2 ^ 16
  seconds-lt =
      read_big_endian-lt 2 0 1 (slice data_ 0 2) (length-slice data_ 0 2 (omega (arith, h)))
        (slice-AreBytes data_ 0 2 a) (omega arith)

  unix-lt : read_big_endian 0 (slice data_ 2 10) < 2 ^ 64
  unix-lt =
      read_big_endian-lt 8 0 1 (slice data_ 2 10) (length-slice data_ 2 10 (omega (arith, h)))
        (slice-AreBytes data_ 2 10 a) (omega arith)

  partition-lt : read_big_endian 0 (slice data_ 26 28) < 2 ^ 16
  partition-lt =
      read_big_endian-lt 2 0 1 (slice data_ 26 28) (length-slice data_ 26 28 h)
        (slice-AreBytes data_ 26 28 a) (omega arith)

  decoded-IsWhole : IsWhole (decoded data_)
  decoded-IsWhole = record {
    seconds = read_big_endian 0 (slice data_ 0 2);
    interval = refl;
    seconds_range = seconds-lt;
    unix_range = unix-lt;
    nanosecond = refl;
    partition_range = partition-lt;
    id_length = length-slice data_ 10 26 (omega (arith, h));
  }

  marshal-decoded :
      (buf : List ℕ)
      → length buf ≡ combined_metrics_key_encoded_size
      → marshal_binary_to_sized_buffer (decoded data_) buf ≡ some (take 28 data_)
  marshal-decoded buf e =
      marshal_lem (decoded data_) buf (length-slice data_ 10 26 (omega (arith, h))) e
      ∙ rw
          (
            whole_seconds (read_big_endian 0 (slice data_ 0 2)) seconds-lt,
            big_endian-read 2 (slice data_ 0 2) (length-slice data_ 0 2 (omega (arith, h)))
                (slice-AreBytes data_ 0 2 a),
            big_endian-read 8 (slice data_ 2 10) (length-slice data_ 2 10 (omega (arith, h)))
                (slice-AreBytes data_ 2 10 a),
            big_endian-read 2 (slice data_ 26 28) (length-slice data_ 26 28 h)
                (slice-AreBytes data_ 26 28 a),
            layout-slices data_,
          )
          refl

-- `UnmarshalBinary` reports data below 12 bytes as an error and panics on data of 12 to 27 bytes. From
-- any longer data it reads a key of whole seconds with every field in its range, and writing this
-- key to any buffer of 28 bytes gives the first 28 bytes of the data back.
pub unmarshal_binary_cases :
    (data_ : List ℕ)
    → AreBytes data_
    → ((unmarshal_binary data_ ≡ insufficient_length) × (length data_ < 12))
      ⊎ ((unmarshal_binary data_ ≡ panics) × (12 ≤ length data_) × (length data_ < 28))
      ⊎ ((k : CombinedMetricsKey) × (unmarshal_binary data_ ≡ key k)
          × (28 ≤ length data_)
          × IsWhole k
          × ((buf : List ℕ)
              → length buf ≡ combined_metrics_key_encoded_size
              → marshal_binary_to_sized_buffer k buf ≡ some (take 28 data_)))
unmarshal_binary_cases data_ a = elim (Bool-cases (ltb (length data_) 12)) [
  | inl short ↦
      let h : length data_ < 12 = ground (arith, short) in inl (unmarshal_binary-short data_ h, h)
  | inr more ↦
      let l : 12 ≤ length data_ = ground (arith, more) in
      elim (Bool-cases (ltb (length data_) 28)) [
        | inl short ↦
            let h : length data_ < 28 = ground (arith, short) in
            inr (inl (unmarshal_binary-panics data_ l h, l, h))
        | inr enough ↦
            let h : 28 ≤ length data_ = ground (arith, enough) in
            inr (
              inr (
                decoded data_,
                unmarshal_binary-decoded data_ h,
                h,
                decoded-IsWhole data_ a h,
                marshal-decoded data_ a h,
              ))
      ]
]
