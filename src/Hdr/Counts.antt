-- ===== src/Hdr/Counts.antt =====
-- `HybridCountsRep` of aggregators/internal/hdrhistogram/hdrhistogram.go: one bar held in two
-- fields, promoted to a sorted slice of bars by the second `Add`. `s` is `none` for a nil slice.
-- `golang.org/x/exp/slices` is the parameter `lib`. `ForEach` is the list of its callback's calls.
pub mod Laws
pub mod Adds
use Prim.Native.Nat.{Ordering}
use apm_aggregation.Base.{
  ℕ, zero, suc, ◌+◌, ◌-◌, ◌≡◌, Bool, true, false, not, ◌&&◌, ◌||◌, Option, none, some, List, [],
  ◌∷◌,
}
use apm_aggregation.Base.Tests.{◌==◌, ltb, if◌then◌else◌}
use apm_aggregation.Base.Lists.{length, get_elem?, set?}
use apm_aggregation.Base.Words.{add64, lt32}
use apm_aggregation.Base.Search.{Slices}
use apm_aggregation.Bars.{Bar}

pub record HybridCountsRep : Type 0 where
  pub bucket : ℕ
  pub value : ℕ
  pub s : Option (List Bar)

abbrev pub empty : HybridCountsRep
empty = record { bucket = 0; value = 0; s = none }

-- The sign of the result: `eq` for 0, `gt` for 1, `lt` for -1.
unfoldable pub compare_bar : Bar → Bar → Ordering
compare_bar a b =
    if a.bucket == b.bucket
    then Ordering.eq
    else (if lt32 b.bucket a.bucket then Ordering.gt else Ordering.lt)

abbrev pub key_bar : ℕ → Bar
key_bar b = record { bucket = b; count = 0 }

-- `c.s[at].Count += value`; `none` is the panic of an index out of range.
unfoldable pub bump : List Bar → ℕ → ℕ → Option (List Bar)
bump s at v = elim (get_elem? s at) [
  | none ↦ none
  | some b ↦ set? s at (record b { count = add64 b.count v })
]

module _ (lib : Slices Bar) where
  -- `Add` on a slice: the search, then the update or the insertion.
  unfoldable pub add_slice : List Bar → ℕ → ℕ → Option (List Bar)
  unfolding bump compare_bar
  add_slice s b v =
      let (at, found) = lib.binary_search_func s (key_bar b) compare_bar in
      if found then bump s at v else some (lib.insert s at (record { bucket = b; count = v }))

  abbrev with_slice : HybridCountsRep → Option (List Bar) → Option HybridCountsRep
  with_slice c none = none
  with_slice c (some s) = some (record c { s = some s })

  add_to : Option (List Bar) → HybridCountsRep → ℕ → ℕ → Option HybridCountsRep
  unfolding add_slice
  add_to (some s) c b v = with_slice c (add_slice s b v)
  add_to none c b v =
      if c.bucket == 0 && c.value == 0
      then some (record c { bucket = b; value = v })
      else with_slice (record c { bucket = 0; value = 0 })
          (add_slice (lib.insert [] 0 (record { bucket = c.bucket; count = c.value })) b v)

  unfoldable pub add : HybridCountsRep → ℕ → ℕ → Option HybridCountsRep
  unfolding add_to
  add c b v = add_to c.s c b v

  get_from : Option (List Bar) → HybridCountsRep → ℕ → Option (ℕ × Bool)
  unfolding compare_bar
  get_from none c b = if c.bucket == b then some (c.value, true) else some (0, false)
  get_from (some s) c b =
      let (at, found) = lib.binary_search_func s (key_bar b) compare_bar in
      if found
      then (elim (get_elem? s at) [ none ↦ none | some x ↦ some (x.count, true) ])
      else some (0, false)

  unfoldable pub get : HybridCountsRep → ℕ → Option (ℕ × Bool)
  unfolding get_from
  get c b = get_from c.s c b

abbrev pub visits : Option (List Bar) → HybridCountsRep → List Bar
visits (some s) c = s
visits none c =
    if not (c.bucket == 0) || not (c.value == 0)
    then record { bucket = c.bucket; count = c.value } ∷ []
    else []

unfoldable pub for_each : HybridCountsRep → List Bar
for_each c = visits c.s c

abbrev len_of : Option (List Bar) → HybridCountsRep → ℕ
len_of (some s) c = length s
len_of none c = if not (c.bucket == 0) || not (c.value == 0) then 1 else 0

unfoldable pub len : HybridCountsRep → ℕ
len c = len_of c.s c

-- `c.s[:0]` of a nil slice is nil.
abbrev pub truncated : Option (List Bar) → Option (List Bar)
truncated none = none
truncated (some s) = some []

unfoldable pub reset : HybridCountsRep → HybridCountsRep
reset c = record { bucket = 0; value = 0; s = truncated c.s }

module _ (lib : Slices Bar) where
  -- The callback of `Equal`, run on each bar; a panic ends the run.
  equal_bars : HybridCountsRep → List Bar → Bool → Option Bool
  equal_bars h [] equal = some equal
  equal_bars h (x ∷ xs) equal = elim (get lib h x.bucket) [
    | none ↦ none
    | some (v, ok) ↦ equal_bars h xs (if not ok || not (x.count == v) then false else equal)
  ]

  unfoldable pub equal : HybridCountsRep → HybridCountsRep → Option Bool
  unfolding equal_bars for_each len get
  equal c h =
      if not (len c == len h)
      then some false
      else (if len c == 0 then some true else equal_bars h (for_each c) true)
