-- ===== src/Aggregator/Bounds.antt =====
-- The bounds between which `harvestForInterval` of aggregators/aggregator.go reads and deletes, and
-- the keys between them. A time is the nanoseconds since Go's zero time.
use mathlib.Core.List.{append_assoc}
use apm_aggregation.Base.{
  ℕ, ◌+◌, ◌-◌, ◌*◌, ◌/◌, ◌%◌, ◌^◌, ◌<◌, ◌≤◌, ◌≡◌, refl, ap, subst, ◌∙◌, ◌↔◌, Bool, true, false, not,
  ◌&&◌, Option, none, some, List, ◌++◌, arith,
}
use apm_aggregation.Base.Tests.{ltb, leb, ◌==◌}
use apm_aggregation.Base.Lists.{length, replicate, length-append}
use apm_aggregation.Codec.Key.{
  CombinedMetricsKey, combined_metrics_key_encoded_size, second, big_endian,
  marshal_binary_to_sized_buffer,
}
use apm_aggregation.Codec.Key.Bytes.{length-big_endian}
use apm_aggregation.Codec.Key.RoundTrip.{IsWhole, encoding, marshal_lem}
use apm_aggregation.Aggregator.Order.{before, within, first, before-big_endian, before-replicate}

-- The seconds from Go's zero time to 1970.
abbrev pub epoch : ℕ
epoch = 62135596800

-- `uint64(t.Unix())`
unfoldable pub unix : ℕ → ℕ
unix t = (t / second + (2 ^ 64 - epoch)) % 2 ^ 64

-- The key of an interval and a time, the other fields as given.
unfoldable pub key_at : ℕ → ℕ → ℕ → List ℕ → CombinedMetricsKey
unfolding unix
key_at ivl t partition id = record {
  interval = ivl;
  unix = unix t;
  nanosecond = t % second;
  partition_id = partition;
  id = id;
}

-- The buffer after a write whose error is ignored.
abbrev pub written : List ℕ → Option (List ℕ) → List ℕ
written data_ none = data_
written data_ (some buf) = buf

-- `lb` and `ub`, for `start` and `end`.
unfoldable pub bound : ℕ → ℕ → List ℕ
unfolding key_at marshal_binary_to_sized_buffer
bound ivl t =
    let buf = replicate combined_metrics_key_encoded_size 0 in
    written buf (marshal_binary_to_sized_buffer (key_at ivl t 0 (replicate 16 0)) buf)

zero_tail : replicate 16 0 ++ big_endian 2 0 ≡ replicate 18 0
unfolding big_endian
zero_tail = refl

bound_lem :
    (ivl t : ℕ)
    → bound ivl t
      ≡ big_endian 2 ((ivl / second) % 2 ^ 16) ++ (big_endian 8 (unix t) ++ replicate 18 0)
unfolding bound
bound_lem ivl t =
    let a = big_endian 2 ((ivl / second) % 2 ^ 16) in
    let b = big_endian 8 (unix t) in
    let buf = replicate 28 0 in
    ap (written buf) (marshal_lem (key_at ivl t 0 (replicate 16 0)) buf refl refl)
    ∙ append_assoc (a ++ b) (replicate 16 0) (big_endian 2 0)
    ∙ append_assoc a b (replicate 16 0 ++ big_endian 2 0)
    ∙ ap (λ c. a ++ (b ++ c)) zero_tail

encoding_lem :
    (k : CombinedMetricsKey)
    → encoding k
      ≡ big_endian 2 ((k.interval / second) % 2 ^ 16)
        ++ (big_endian 8 k.unix ++ (k.id ++ big_endian 2 k.partition_id))
encoding_lem k =
    let a = big_endian 2 ((k.interval / second) % 2 ^ 16) in
    let b = big_endian 8 k.unix in
    append_assoc (a ++ b) k.id _ ∙ append_assoc a b (k.id ++ big_endian 2 k.partition_id)

before_tail :
    (k : CombinedMetricsKey)
    → length k.id ≡ 16
    → before (k.id ++ big_endian 2 k.partition_id) (replicate 18 0) ≡ false
before_tail k n =
    let xs = k.id ++ big_endian 2 k.partition_id in
    let same : length xs ≡ 18 = omega (
      arith,
      length-append k.id (big_endian 2 k.partition_id),
      length-big_endian 2 k.partition_id,
    ) in
    subst (λ m. before xs (replicate m 0) ≡ false) same (before-replicate xs)

-- An encoded key before a bound.
before-bound :
    (k : CombinedMetricsKey) (ivl t : ℕ)
    → IsWhole k
    → before (encoding k) (bound ivl t)
      ≡ first
          ((k.interval / second) % 2 ^ 16)
          ((ivl / second) % 2 ^ 16)
          (first k.unix (unix t) false)
unfolding unix
before-bound k ivl t w =
    let s = (k.interval / second) % 2 ^ 16 in
    let i = (ivl / second) % 2 ^ 16 in
    rw
      (
        encoding_lem k,
        bound_lem ivl t,
        before-big_endian 2 s i (big_endian 8 k.unix ++ (k.id ++ big_endian 2 k.partition_id))
            (big_endian 8 (unix t) ++ replicate 18 0) (omega arith) (omega arith),
        before-big_endian 8 k.unix (unix t) (k.id ++ big_endian 2 k.partition_id) (replicate 18 0)
            w.unix_range (omega arith),
        before_tail k w.id_length,
      )
      refl

-- An interval of whole seconds that fits into an encoded key.
pub record IsInterval (ivl : ℕ) : Type 0 where
  pub seconds : ℕ
  pub whole : ivl ≡ seconds * second
  pub least : 0 < seconds
  pub most : seconds < 2 ^ 16

-- A key of the interval whose time is from `start` to before `end`.
unfoldable pub is_between : ℕ → ℕ → ℕ → CombinedMetricsKey → Bool
unfolding unix
is_between ivl start end k = k.interval == ivl && (leb (unix start) k.unix && ltb k.unix (unix end))

seconds_lem : (s : ℕ) → s < 2 ^ 16 → ((s * second) / second) % 2 ^ 16 ≡ s
seconds_lem s h = omega (arith, h)

tests_lem :
    (s i u lo hi : ℕ)
    → (not (first s i (first u lo false)) && first s i (first u hi false))
      ≡ (s * second == i * second && (leb lo u && ltb u hi))
tests_lem s i u lo hi = ground arith

pub within-is_between :
    (k : CombinedMetricsKey) (ivl start end : ℕ)
    → IsWhole k
    → IsInterval ivl
    → within (bound ivl start) (bound ivl end) (encoding k) ≡ is_between ivl start end k
unfolding within is_between
within-is_between k ivl start end w i =
    rw
      (
        before-bound k ivl start w,
        before-bound k ivl end w,
        w.interval,
        i.whole,
        seconds_lem w.seconds w.seconds_range,
        seconds_lem i.seconds i.most,
      )
      (tests_lem w.seconds i.seconds k.unix (unix start) (unix end))

pub is_between_lem :
    (ivl start end : ℕ) (k : CombinedMetricsKey)
    → (is_between ivl start end k ≡ true)
      ↔ ((k.interval ≡ ivl) × (unix start ≤ k.unix) × (k.unix < unix end))
unfolding is_between
is_between_lem ivl start end k = ground arith

-- The encoding of a key of whole seconds lies between the bounds that a harvest makes of an interval,
-- a start and an end exactly if the key is of that interval and its time is from the start to before
-- the end.
pub within-bound :
    (k : CombinedMetricsKey) (ivl start end : ℕ)
    → IsWhole k
    → IsInterval ivl
    → (within (bound ivl start) (bound ivl end) (encoding k) ≡ true)
      ↔ ((k.interval ≡ ivl) × (unix start ≤ k.unix) × (k.unix < unix end))
within-bound k ivl start end w i =
    rw (within-is_between k ivl start end w i) (is_between_lem ivl start end k)
