-- ===== src/Config/Valid.antt =====
-- What follows from the outcome of `validateCfg`, aggregators/config.go.
use native.Mathlib.Nat.{mod_self}
use apm_aggregation.Base.{
  ℕ, ◌/◌, ◌%◌, ◌^◌, ◌≤◌, ◌≡◌, ◌≢◌, ◌↔◌, inl, inr, refl, ap, true, false, List, [], ◌∷◌, arith,
}
use apm_aggregation.Base.Lists.{All}
use apm_aggregation.Base.Int.{ℤ, pos, negsuc, ltb_ℤ, magnitude}
use apm_aggregation.Base.Tests.{◌==◌, Bool-cases}
use apm_aggregation.Config.{
  Kinds, Config, Outcome, valid, invalid, and_then, check_range, panics, second, eighteen_hours,
  is_ascending, last_of, check_factors, check_intervals, validate_cfg, is_empty, is_nil,
}

-- An interval in nanoseconds: from a second to 18 hours, so that its seconds fit into the uint16 of
-- an encoded key, and a multiple of the lowest one.
pub record IsInterval (lowest ivl : ℤ) : Type 0 where
  pub nanoseconds : ℕ
  pub positive : ivl ≡ pos nanoseconds
  pub least : 1000000000 ≤ nanoseconds
  pub most : nanoseconds ≤ 64800000000000
  pub fits : (nanoseconds / 1000000000) % 2 ^ 16 ≡ nanoseconds / 1000000000
  pub divides : nanoseconds % magnitude lowest ≡ 0

-- Neither too short nor too long.
abbrev InBounds : ℤ → Type 0
InBounds ivl = (ltb_ℤ ivl second ≡ false) × (ltb_ℤ eighteen_hours ivl ≡ false)

ascending-bounds :
    (x : ℤ) (xs : List ℤ)
    → is_ascending x xs ≡ true
    → ltb_ℤ x second ≡ false
    → ltb_ℤ eighteen_hours (last_of x xs) ≡ false
    → All InBounds (x ∷ xs)
unfolding is_ascending
ascending-bounds x [] a b c = ((b, c), tt)
ascending-bounds x (y ∷ ys) a b c =
    let rest = ascending-bounds y ys (ground arith) (ground arith) c in
    ((b, ground (arith, rest.0)), rest)

factors-divide :
    (lowest : ℤ) (xs : List ℤ)
    → check_factors lowest xs ≡ valid
    → All (λ ivl. magnitude ivl % magnitude lowest ≡ 0) xs
unfolding check_factors
factors-divide lowest [] h = tt
factors-divide lowest (x ∷ xs) h = (ground arith, factors-divide lowest xs (ground arith))

is_interval :
    (lowest ivl : ℤ) → InBounds ivl → magnitude ivl % magnitude lowest ≡ 0 → IsInterval lowest ivl
is_interval lowest (negsuc n) b d = absurd (ground (arith, b))
is_interval lowest (pos n) b d =
    let least : 1000000000 ≤ n = ground (arith, b) in
    let most : n ≤ 64800000000000 = ground (arith, b) in
    record {
      nanoseconds = n;
      positive = refl;
      least = least;
      most = most;
      fits = omega arith;
      divides = d;
    }

are_intervals :
    (lowest : ℤ) (xs : List ℤ)
    → All InBounds xs
    → All (λ ivl. magnitude ivl % magnitude lowest ≡ 0) xs
    → All (IsInterval lowest) xs
are_intervals lowest [] b d = tt
are_intervals lowest (x ∷ xs) b d = (is_interval lowest x b.0 d.0, are_intervals lowest xs b.1 d.1)

valid_intervals :
    (lowest : ℤ) (xs : List ℤ)
    → check_intervals (lowest ∷ xs) ≡ valid
    → All (IsInterval lowest) (lowest ∷ xs)
unfolding check_intervals
valid_intervals lowest xs h =
    let up : is_ascending lowest xs ≡ true = ground arith in
    let factors : check_factors lowest xs ≡ valid = ground arith in
    let low : ltb_ℤ lowest second ≡ false = ground arith in
    let high : ltb_ℤ eighteen_hours (last_of lowest xs) ≡ false = ground arith in
    are_intervals lowest (lowest ∷ xs) (ascending-bounds lowest xs up low high)
      (mod_self (magnitude lowest), factors-divide lowest xs factors)

-- Two intervals or more, in ascending order, the lowest of which is zero.
abbrev pub ZeroFirst : List ℤ → Type 0
ZeroFirst [] = ⊥
ZeroFirst (lowest ∷ []) = ⊥
ZeroFirst (lowest ∷ ivl ∷ ivls) = (lowest ≡ pos 0) × (is_ascending lowest (ivl ∷ ivls) ≡ true)

magnitude-zero : (i : ℤ) → magnitude i ≡ 0 → i ≡ pos 0
magnitude-zero (pos n) h = ap (λ m. pos m) h
magnitude-zero (negsuc n) h = absurd (omega (arith, h))

factors-zero :
    (lowest : ℤ) (ivls : List ℤ) → check_factors lowest ivls ≡ panics → magnitude lowest ≡ 0
unfolding check_factors
factors-zero lowest [] h = absurd (ground arith)
factors-zero lowest (ivl ∷ ivls) h = elim (Bool-cases (magnitude lowest == 0)) [
  | inl zero_ ↦ ground (arith, zero_)
  | inr other ↦ factors-zero lowest ivls (ground (arith, other, h))
]

check_range-returns : (lowest highest : ℤ) → check_range lowest highest ≢ panics
check_range-returns lowest highest h = ground arith

and_then-panics : (o r : Outcome) → r ≢ panics → and_then o r ≡ panics → o ≡ panics
and_then-panics valid r n h = absurd (n h)
and_then-panics (invalid p) r n h = absurd (ground arith)
and_then-panics panics r n h = refl

intervals-panic :
    (lowest : ℤ) (ivls : List ℤ)
    → check_intervals (lowest ∷ ivls) ≡ panics
    → (is_ascending lowest ivls ≡ true) × (check_factors lowest ivls ≡ panics)
unfolding check_intervals
intervals-panic lowest ivls h =
    let up : is_ascending lowest ivls ≡ true = ground arith in
    (
      up,
      and_then-panics (check_factors lowest ivls) _
          (check_range-returns lowest (last_of lowest ivls)) (rw up at h),
    )

panics-ZeroFirst : (ivls : List ℤ) → check_intervals ivls ≡ panics → ZeroFirst ivls
unfolding check_intervals check_factors
panics-ZeroFirst [] h = absurd (ground arith)
panics-ZeroFirst (lowest ∷ []) h =
    let p = intervals-panic lowest [] h in absurd (ground (arith, p.1))
panics-ZeroFirst (lowest ∷ ivl ∷ ivls) h =
    let p = intervals-panic lowest (ivl ∷ ivls) h in
    (magnitude-zero lowest (factors-zero lowest (ivl ∷ ivls) p.1), p.0)

ZeroFirst-panics : (ivls : List ℤ) → ZeroFirst ivls → check_intervals ivls ≡ panics
unfolding check_intervals check_factors
ZeroFirst-panics [] h = absurd h
ZeroFirst-panics (lowest ∷ []) h = absurd h
ZeroFirst-panics (lowest ∷ ivl ∷ ivls) h = rw (h.1, h.0) refl

module _ {k : Kinds} where
  -- What `validateCfg` accepts.
  pub record IsValid (cfg : Config k) : Type 0 where
    pub lowest : ℤ
    pub higher : List ℤ
    pub intervals : cfg.aggregation_intervals ≡ lowest ∷ higher
    pub each : All (IsInterval lowest) (lowest ∷ higher)
    pub ascending : is_ascending lowest higher ≡ true
    pub partitioned : cfg.partitions ≢ 0
    pub has_directory : is_empty cfg.data_dir ≡ false
    pub has_processor : is_nil cfg.processor ≡ false

  accepted :
      (ivls : List ℤ) (cfg : Config k)
      → cfg.aggregation_intervals ≡ ivls
      → check_intervals ivls ≡ valid
      → cfg.partitions ≢ 0
      → is_empty cfg.data_dir ≡ false
      → is_nil cfg.processor ≡ false
      → IsValid cfg
  unfolding check_intervals
  accepted [] cfg e h p d q = absurd (ground arith)
  accepted (lowest ∷ higher) cfg e h p d q = record {
    lowest = lowest;
    higher = higher;
    intervals = e;
    each = valid_intervals lowest higher h;
    ascending = ground arith;
    partitioned = p;
    has_directory = d;
    has_processor = q;
  }

  -- A configuration that validation accepts has a directory, a processor and a partition, and its
  -- intervals ascend, are multiples of the lowest, and lie between a second and 18 hours, so that
  -- the seconds of each fit into the two bytes of an encoded key.
  pub validate_cfg-IsValid : (cfg : Config k) → validate_cfg cfg ≡ valid → IsValid cfg
  unfolding validate_cfg
  validate_cfg-IsValid cfg h =
      accepted cfg.aggregation_intervals cfg refl (ground arith) (ground arith) (ground arith)
        (ground arith)

  -- Validation panics on exactly those configurations that have a directory, a processor and a
  -- partition and list two intervals or more, in ascending order, the lowest of which is zero: it
  -- divides by the lowest before it checks it.
  pub validate_cfg-panics_iff :
      (cfg : Config k)
      → (validate_cfg cfg ≡ panics) ↔ (
          (is_empty cfg.data_dir ≡ false)
          × (is_nil cfg.processor ≡ false)
          × (cfg.partitions ≢ 0)
          × ZeroFirst cfg.aggregation_intervals)
  unfolding validate_cfg
  validate_cfg-panics_iff cfg = (
    λ h. (
      ground arith,
      ground arith,
      ground arith,
      panics-ZeroFirst cfg.aggregation_intervals (ground arith),
    ),
    λ h.
        let last = ZeroFirst-panics cfg.aggregation_intervals h.3 in
        let dir = h.0 in
        let processor = h.1 in
        let partitions = h.2 in ground (arith, last, dir, processor, partitions),
  )
