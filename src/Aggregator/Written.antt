-- ===== src/Aggregator/Written.antt =====
-- The keys that `AggregateBatch` of aggregators/aggregator.go makes of the processing time: each is of
-- the interval that goes on.
use native.Mathlib.Nat.{mul-mod_left, mul_assoc, div-add-mod', mod-lt}
use apm_aggregation.Base.{
  ℕ, suc, ◌+◌, ◌*◌, ◌/◌, ◌%◌, ◌^◌, ◌<◌, ◌≤◌, ◌≡◌, refl, sym, ap, ◌∙◌, subst, some, List, [], ◌∷◌,
  arith,
}
use apm_aggregation.Base.Lists.{All, get_elem?, length}
use apm_aggregation.Codec.Key.{second}
use apm_aggregation.Codec.Key.RoundTrip.{IsWhole, encoding}
use apm_aggregation.Aggregator.Bounds.{epoch, unix, IsInterval, key_at}
use apm_aggregation.Aggregator.State.{truncate}
use apm_aggregation.Aggregator.Timely.{AreIntervals, Timely, Held}
use apm_aggregation.Aggregator.Unfinished.{quotient_step, multiple_lem, each_at}

-- A processing time from which even the longest interval goes back no further than to 1970.
abbrev pub first_time : ℕ
first_time = (epoch + 2 ^ 16) * second

pub truncate_lem :
    (t ivl : ℕ)
    → IsInterval ivl
    → (truncate t ivl ≡ (t / ivl) * ivl) × (truncate t ivl ≤ t) × (t < truncate t ivl + ivl)
unfolding truncate
truncate_lem t ivl i =
    let positive : 0 < ivl = omega (arith, i.whole, i.least) in
    let r = mod-lt t positive in
    let d = div-add-mod' t ivl in ground (arith, i.whole, i.least, i.most, r, d)

unix-lt : (t : ℕ) → unix t < 2 ^ 64
unfolding unix
unix-lt t = omega arith

whole-second : (m ivl : ℕ) → IsInterval ivl → (m * ivl) % second ≡ 0
whole-second m ivl i =
    ap (λ x. (m * x) % second) i.whole
    ∙ ap (λ x. x % second) (sym (mul_assoc m i.seconds second))
    ∙ mul-mod_left (m * i.seconds) second

pub written-IsWhole :
    (t ivl q : ℕ) (id : List ℕ)
    → IsInterval ivl
    → length id ≡ 16
    → q < 2 ^ 16
    → IsWhole (record (key_at ivl (truncate t ivl) 0 id) { partition_id = q })
unfolding key_at
written-IsWhole t ivl q id i l r =
    let (same, below, after) = truncate_lem t ivl i in
    record {
      seconds = i.seconds;
      interval = i.whole;
      seconds_range = i.most;
      unix_range = unix-lt (truncate t ivl);
      nanosecond = ap (λ x. x % second) same ∙ whole-second (t / ivl) ivl i;
      partition_range = r;
      id_length = l;
    }

module _ {lowest : ℕ} {ivls : List ℕ} (a : AreIntervals lowest ivls) (t n ending : ℕ)
    (e : t ≡ n * lowest) (d : ending ≤ t + lowest) (f : first_time ≤ t) (id : List ℕ)
    (l : length id ≡ 16) where
  written-Timely :
      (place ivl q : ℕ)
      → get_elem? ivls place ≡ some ivl
      → q < 2 ^ 16
      → Timely ivls t ending (record (key_at ivl (truncate t ivl) 0 id) { partition_id = q })
  unfolding key_at
  written-Timely place ivl q h r =
      let i = each_at a IsInterval ivls place ivl a.each h in
      let (c, m) = each_at a (λ ivl. (c : ℕ) × (ivl ≡ c * lowest)) ivls place ivl a.multiples h in
      let (same, below, after) = truncate_lem t ivl i in
      let start = (t / ivl) * ivl in
      let finish : (t / ivl) * ivl + ivl ≡ (suc (t / ivl) * c) * lowest =
        multiple_lem a (t / ivl) ivl c m in
      let beyond =
        quotient_step n (suc (t / ivl) * c) lowest (start + ivl) t e finish
          (omega (arith, same, after)) in
      record {
        whole = written-IsWhole t ivl q id i l r;
        place = place;
        listed = h;
        turn = t / ivl;
        time = ap unix same;
        modern = omega (arith, same, after, f, i.whole, i.most);
        started = omega (arith, same, below);
        unfinished = omega (arith, beyond, d);
      }

  -- For every interval and every partition.
  pub written-Held :
      (js : List ℕ) (from : ℕ)
      → ((i ivl : ℕ) → get_elem? js i ≡ some ivl → get_elem? ivls (from + i) ≡ some ivl)
      → All
          (λ ivl.
            (q : ℕ)
            → q < 2 ^ 16
            → (length (key_at ivl (truncate t ivl) 0 id).id ≡ 16)
              × Held ivls t ending
                  (encoding (record (key_at ivl (truncate t ivl) 0 id) { partition_id = q })))
          js
  unfolding key_at
  written-Held [] from h = tt
  written-Held (j ∷ js) from h = (
    λ q r. (
      l,
      (
        record (key_at j (truncate t j) 0 id) { partition_id = q },
        refl,
        written-Timely from j q (subst (λ i. get_elem? ivls i ≡ some j) (omega arith) (h 0 j refl))
            r,
      ),
    ),
    written-Held js (suc from)
        (λ i ivl k. subst (λ i. get_elem? ivls i ≡ some ivl) (omega arith) (h (suc i) ivl k)),
  )
