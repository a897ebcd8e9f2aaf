-- ===== src/Codec/Key/RoundTrip.antt =====
-- Writing a key to a buffer and reading it back, aggregators/codec.go.
use apm_aggregation.Base.{
  ℕ, zero, suc, ◌*◌, ◌/◌, ◌%◌, ◌^◌, ◌<◌, ◌≤◌, ◌≡◌, refl, ap, sym, subst, some, List, [], ◌∷◌, ◌++◌,
  arith,
}
use apm_aggregation.Base.Lists.{length, drop, length-append, length-drop}
use apm_aggregation.Codec.Key.{
  CombinedMetricsKey, combined_metrics_key_encoded_size, second, big_endian, read_big_endian, slice,
  marshal_binary_to_sized_buffer, key, unmarshal_binary, put_at,
}
use apm_aggregation.Codec.Key.Reads.{unmarshal_binary-decoded}
use apm_aggregation.Codec.Key.Bytes.{length-big_endian, read-big_endian, put_at_lem, slice_lem}

-- A key that the encoding keeps: whole seconds, and every field in its range.
pub record IsWhole (k : CombinedMetricsKey) : Type 0 where
  pub seconds : ℕ
  pub interval : k.interval ≡ seconds * second
  pub seconds_range : seconds < 2 ^ 16
  pub unix_range : k.unix < 2 ^ 64
  pub nanosecond : k.nanosecond ≡ 0
  pub partition_range : k.partition_id < 2 ^ 16
  pub id_length : length k.id ≡ 16

pub append_nil : (xs : List ℕ) → xs ++ [] ≡ xs
append_nil [] = refl
append_nil (x ∷ xs) = ap (◌∷◌ x) (append_nil xs)

pub append_assoc : (xs ys zs : List ℕ) → (xs ++ ys) ++ zs ≡ xs ++ (ys ++ zs)
append_assoc [] ys zs = refl
append_assoc (x ∷ xs) ys zs = ap (◌∷◌ x) (append_assoc xs ys zs)

drop_everything : (n : ℕ) (xs : List ℕ) → length xs ≤ n → drop n xs ≡ []
drop_everything zero [] h = refl
drop_everything zero (x ∷ xs) h = absurd (omega (arith, h))
drop_everything (suc n) [] h = refl
drop_everything (suc n) (x ∷ xs) h = drop_everything n xs (omega (arith, h))

-- Four writes one after the other fill the buffer.
four_writes :
    (a b c d data_ : List ℕ)
    → length a ≡ 2
    → length b ≡ 8
    → length c ≡ 16
    → length d ≡ 2
    → length data_ ≡ 28
    → put_at (put_at (put_at (put_at data_ 0 a) 2 b) 10 c) 26 d ≡ ((a ++ b) ++ c) ++ d
four_writes a b c d data_ ha hb hc hd h =
    let r1 = drop (length a) data_ in
    let r2 = drop (length b) r1 in
    let r3 = drop (length c) r2 in
    let r4 = drop (length d) r3 in
    let n1 = length-drop (length a) data_ in
    let n2 = length-drop (length b) r1 in
    let n3 = length-drop (length c) r2 in
    let done : drop (length d) r3 ≡ [] = drop_everything (length d) r3 (omega arith) in
    let ab = length-append a b in
    let abc = length-append (a ++ b) c in
    rw (put_at_lem 0 [] a data_ refl) (
      rw (put_at_lem 2 a b r1 ha) (
        rw (put_at_lem 10 (a ++ b) c r2 (omega arith))
          (rw (put_at_lem 26 ((a ++ b) ++ c) d r3 (omega arith), done) (append_nil _))))

-- Two bytes, eight, sixteen and two.
abbrev pub layout : List ℕ → List ℕ → List ℕ → List ℕ → List ℕ
layout a b c d = ((a ++ b) ++ c) ++ d

-- The four reads.
module _ (a b c d : List ℕ) (ha : length a ≡ 2) (hb : length b ≡ 8) (hc : length c ≡ 16)
    (hd : length d ≡ 2) where
  first_read : slice (layout a b c d) 0 2 ≡ a
  first_read =
      rw (append_assoc (a ++ b) c d, append_assoc a b (c ++ d))
        (slice_lem 0 2 [] a (b ++ (c ++ d)) refl (omega (arith, ha)))

  second_read : slice (layout a b c d) 2 10 ≡ b
  second_read =
      rw (append_assoc (a ++ b) c d, append_assoc a b (c ++ d))
        (slice_lem 2 10 a b (c ++ d) ha (omega (arith, hb)))

  third_read : slice (layout a b c d) 10 26 ≡ c
  third_read =
      let n = length-append a b in
      rw (append_assoc (a ++ b) c d)
        (slice_lem 10 26 (a ++ b) c d (omega (arith, n, ha, hb)) (omega (arith, hc)))

  fourth_read : slice (layout a b c d) 26 28 ≡ d
  fourth_read =
      let n = length-append a b in
      let m = length-append (a ++ b) c in
      subst (λ (t : List ℕ). slice (((a ++ b) ++ c) ++ t) 26 28 ≡ d) (append_nil d)
        (slice_lem 26 28 ((a ++ b) ++ c) d [] (omega (arith, n, m, ha, hb, hc)) (omega (arith, hd)))

  length-layout : length (layout a b c d) ≡ 28
  length-layout = omega (
    arith,
    ha,
    hb,
    hc,
    hd,
    length-append a b,
    length-append (a ++ b) c,
    length-append ((a ++ b) ++ c) d,
  )

-- The buffer that a key is written to.
abbrev pub encoding : CombinedMetricsKey → List ℕ
encoding k =
    layout (big_endian 2 ((k.interval / second) % 2 ^ 16)) (big_endian 8 k.unix) k.id
      (big_endian 2 k.partition_id)

pub marshal_lem :
    (k : CombinedMetricsKey) (data_ : List ℕ)
    → length k.id ≡ 16
    → length data_ ≡ 28
    → marshal_binary_to_sized_buffer k data_ ≡ some (encoding k)
unfolding marshal_binary_to_sized_buffer
marshal_lem k data_ n h =
    let a = big_endian 2 ((k.interval / second) % 2 ^ 16) in
    let b = big_endian 8 k.unix in
    let d = big_endian 2 k.partition_id in
    rw h (
      ap (λ bs. some bs)
        (four_writes a b k.id d data_ (length-big_endian 2 ((k.interval / second) % 2 ^ 16))
          (length-big_endian 8 k.unix) n (length-big_endian 2 k.partition_id) h))

length-encoding : (k : CombinedMetricsKey) → length k.id ≡ 16 → length (encoding k) ≡ 28
length-encoding k n =
    length-layout _ _ _ _ (length-big_endian 2 _) (length-big_endian 8 _) n (length-big_endian 2 _)

pub whole_seconds : (s : ℕ) → s < 2 ^ 16 → ((s * second) / second) % 2 ^ 16 ≡ s
whole_seconds s h = omega (arith, h)

unmarshal_lem :
    (k : CombinedMetricsKey) (buf : List ℕ)
    → length buf ≡ 28
    → k.nanosecond ≡ 0
    → read_big_endian 0 (slice buf 0 2) * second ≡ k.interval
    → read_big_endian 0 (slice buf 2 10) ≡ k.unix
    → slice buf 10 26 ≡ k.id
    → read_big_endian 0 (slice buf 26 28) ≡ k.partition_id
    → unmarshal_binary buf ≡ key k
unmarshal_lem k buf n zeroed interval unix id partition =
    rw (unmarshal_binary-decoded buf (omega (arith, n))) (λ i. key (record {
      interval = interval i;
      unix = unix i;
      nanosecond = sym zeroed i;
      partition_id = partition i;
      id = id i;
    }))

pub unmarshal_encoding :
    (k : CombinedMetricsKey) → IsWhole k → unmarshal_binary (encoding k) ≡ key k
unmarshal_encoding k w =
    let s = (k.interval / second) % 2 ^ 16 in
    let ha = length-big_endian 2 s in
    let hb = length-big_endian 8 k.unix in
    let hd = length-big_endian 2 k.partition_id in
    let whole = whole_seconds w.seconds w.seconds_range in
    unmarshal_lem k (encoding k) (length-encoding k w.id_length) w.nanosecond
      (rw
        (
          first_read _ _ _ _ ha hb w.id_length hd,
          read-big_endian 2 s (omega arith),
          w.interval,
          whole,
        )
        refl)
      (rw (second_read _ _ _ _ ha hb w.id_length hd)
        (read-big_endian 8 k.unix (omega (arith, w.unix_range))))
      (third_read _ _ _ _ ha hb w.id_length hd)
      (rw (fourth_read _ _ _ _ ha hb w.id_length hd)
        (read-big_endian 2 k.partition_id (omega (arith, w.partition_range))))

-- A key of whole seconds whose fields are in range is written to any buffer of 28 bytes, whatever is
-- in it, and reading the buffer gives the key back.
pub unmarshal-marshal_binary :
    (k : CombinedMetricsKey) (data_ : List ℕ)
    → IsWhole k
    → length data_ ≡ combined_metrics_key_encoded_size
    → (buf : List ℕ) × (marshal_binary_to_sized_buffer k data_ ≡ some buf)
      × (length buf ≡ combined_metrics_key_encoded_size)
      × (unmarshal_binary buf ≡ key k)
unmarshal-marshal_binary k data_ w h = (
  encoding k,
  marshal_lem k data_ w.id_length h,
  length-encoding k w.id_length,
  unmarshal_encoding k w,
)
