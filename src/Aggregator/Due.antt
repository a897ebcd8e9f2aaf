-- ===== src/Aggregator/Due.antt =====
-- The entries that a harvest of aggregators/aggregator.go takes and those that it leaves, for keys of
-- whole seconds.
use apm_aggregation.Base.{ℕ, ◌-◌, ◌≡◌, refl, ap, List, [], ◌∷◌, ◌++◌, inl, inr}
use apm_aggregation.Base.Tests.{if◌then◌else◌, Bool-cases}
use apm_aggregation.Base.Lists.{All}
use apm_aggregation.Codec.Key.{CombinedMetricsKey}
use apm_aggregation.Codec.Key.RoundTrip.{IsWhole, encoding}
use apm_aggregation.Cached.{ends_at}
use apm_aggregation.Aggregator.Bounds.{
  bound, IsInterval, is_between, is_between_lem, within-is_between,
}
use apm_aggregation.Aggregator.Pebble.{Entries, between, outside}

module _ {V : Type 0} where
  -- The entries of keys and values as the database has them.
  abbrev pub encoded : List (CombinedMetricsKey × V) → Entries V
  encoded [] = []
  encoded ((k, v) ∷ kvs) = (encoding k, v) ∷ encoded kvs

  abbrev pub WholeKey : CombinedMetricsKey × V → Type 0
  WholeKey (k, v) = IsWhole k

  -- The entries of an interval from a start to before an end, and the others.
  abbrev pub due : ℕ → ℕ → ℕ → List (CombinedMetricsKey × V) → List (CombinedMetricsKey × V)
  due ivl start end [] = []
  due ivl start end ((k, v) ∷ kvs) =
      let rest = due ivl start end kvs in if is_between ivl start end k then (k, v) ∷ rest else rest

  abbrev pub kept : ℕ → ℕ → ℕ → List (CombinedMetricsKey × V) → List (CombinedMetricsKey × V)
  kept ivl start end [] = []
  kept ivl start end ((k, v) ∷ kvs) =
      let rest = kept ivl start end kvs in
      if is_between ivl start end k then rest else (k, v) ∷ rest

  abbrev pub OfInterval : ℕ → CombinedMetricsKey × V → Type 0
  OfInterval ivl (k, v) = k.interval ≡ ivl

  pub due-OfInterval :
      (ivl start end : ℕ) (kvs : List (CombinedMetricsKey × V))
      → All (OfInterval ivl) (due ivl start end kvs)
  due-OfInterval ivl start end [] = tt
  due-OfInterval ivl start end ((k, v) ∷ kvs) = elim (Bool-cases (is_between ivl start end k)) [
    | inl yes_ ↦
        rw yes_ (((is_between_lem ivl start end k).0 yes_).0, due-OfInterval ivl start end kvs)
    | inr no_ ↦ rw no_ (due-OfInterval ivl start end kvs)
  ]

  pub between-encoded :
      (ivl start end : ℕ) (kvs : List (CombinedMetricsKey × V))
      → IsInterval ivl
      → All WholeKey kvs
      → between (bound ivl start) (bound ivl end) (encoded kvs) ≡ encoded (due ivl start end kvs)
  unfolding between
  between-encoded ivl start end [] i w = refl
  between-encoded ivl start end ((k, v) ∷ kvs) i w =
      elim (Bool-cases (is_between ivl start end k)) [
        | inl yes_ ↦
            rw (within-is_between k ivl start end w.0 i, yes_)
              (ap (◌∷◌ (encoding k, v)) (between-encoded ivl start end kvs i w.1))
        | inr no_ ↦
            rw (within-is_between k ivl start end w.0 i, no_)
              (between-encoded ivl start end kvs i w.1)
      ]

  pub outside-encoded :
      (ivl start end : ℕ) (kvs : List (CombinedMetricsKey × V))
      → IsInterval ivl
      → All WholeKey kvs
      → outside (bound ivl start) (bound ivl end) (encoded kvs) ≡ encoded (kept ivl start end kvs)
  unfolding outside
  outside-encoded ivl start end [] i w = refl
  outside-encoded ivl start end ((k, v) ∷ kvs) i w =
      elim (Bool-cases (is_between ivl start end k)) [
        | inl yes_ ↦
            rw (within-is_between k ivl start end w.0 i, yes_)
              (outside-encoded ivl start end kvs i w.1)
        | inr no_ ↦
            rw (within-is_between k ivl start end w.0 i, no_)
              (ap (◌∷◌ (encoding k, v)) (outside-encoded ivl start end kvs i w.1))
      ]

  pub All-due :
      (ivl start end : ℕ) (kvs : List (CombinedMetricsKey × V))
      → All WholeKey kvs
      → All WholeKey (due ivl start end kvs)
  All-due ivl start end [] w = tt
  All-due ivl start end ((k, v) ∷ kvs) w = elim (Bool-cases (is_between ivl start end k)) [
    | inl yes_ ↦ rw yes_ (w.0, All-due ivl start end kvs w.1)
    | inr no_ ↦ rw no_ (All-due ivl start end kvs w.1)
  ]

  pub All-kept :
      (ivl start end : ℕ) (kvs : List (CombinedMetricsKey × V))
      → All WholeKey kvs
      → All WholeKey (kept ivl start end kvs)
  All-kept ivl start end [] w = tt
  All-kept ivl start end ((k, v) ∷ kvs) w = elim (Bool-cases (is_between ivl start end k)) [
    | inl yes_ ↦ rw yes_ (All-kept ivl start end kvs w.1)
    | inr no_ ↦ rw no_ (w.0, All-kept ivl start end kvs w.1)
  ]

  -- What all intervals that end at `end` leave.
  abbrev pub remaining : List ℕ → ℕ → List (CombinedMetricsKey × V) → List (CombinedMetricsKey × V)
  remaining [] end kvs = kvs
  remaining (ivl ∷ ivls) end kvs =
      remaining ivls end (if ends_at end ivl then kept ivl (end - ivl) end kvs else kvs)

  -- The entries that a harvest takes, by their intervals.
  abbrev pub taken : List ℕ → ℕ → List (CombinedMetricsKey × V) → List (CombinedMetricsKey × V)
  taken [] end kvs = []
  taken (ivl ∷ ivls) end kvs =
      (if ends_at end ivl then due ivl (end - ivl) end kvs else []) ++ taken ivls end kvs
