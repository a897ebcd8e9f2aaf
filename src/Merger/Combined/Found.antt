-- ===== src/Merger/Combined/Found.antt =====
-- An entry of a map that is found, or is new below a limit, and is written back: what that does to
-- the length of the map and to sums over it.
use apm_aggregation.Base.{
  ℕ, ◌+◌, ◌^◌, ◌≤◌, ◌<◌, ◌≡◌, refl, subst, ◌⊎◌, inl, inr, none, some, List, [], ◌∷◌, arith,
}
use apm_aggregation.Base.Tests.{ltb, Bool-cases, Option-cases}
use apm_aggregation.Base.Lists.{length}
use apm_aggregation.Base.Words.{add64, sub64}
use apm_aggregation.Base.Assoc.{lookup, insert, length-insert_new, length-insert_old}
use apm_aggregation.Merger.Groups.Counts.{
  sum_map, AllGroups, lookup-AllGroups, sum_map-insert_new, sum_map-insert_old,
}
use apm_aggregation.Merger.Combined.{found_or_new}

module _ {K V : Type 0} (size : V → ℕ) where
  -- A plain sum over a map.
  unfoldable pub size_map : List (K × V) → ℕ
  size_map [] = 0
  size_map ((k, v) ∷ m) = size v + size_map m

module _ {K V : Type 0} (eq : Discrete K) (size : V → ℕ) where
  size_map-insert_new :
      (k : K) (v : V) (m : List (K × V))
      → lookup eq k m ≡ none
      → size_map size (insert eq k v m) ≡ size_map size m + size v
  unfolding size_map lookup insert
  size_map-insert_new k v [] h = omega arith
  size_map-insert_new k v ((j, w) ∷ m) h = ground (arith, size_map-insert_new k v m)

  size_map-insert_old :
      (k : K) (v w : V) (m : List (K × V))
      → lookup eq k m ≡ some w
      → size_map size (insert eq k v m) + size w ≡ size_map size m + size v
  unfolding size_map lookup insert
  size_map-insert_old k v w [] h = ground arith
  size_map-insert_old k v w ((j, u) ∷ m) h = ground (arith, size_map-insert_old k v w m)

module _ {K V : Type 0} (eq : Discrete K) (m : List (K × V)) (limit : ℕ) (fresh : V) where
  -- `v` is the entry at `k`, or is fresh and has room.
  pub data Found (k : K) (v : V) : Type 0 where
    old : lookup eq k m ≡ some v → Found k v
    unused : lookup eq k m ≡ none → length m < limit → fresh ≡ v → Found k v

  pub found_or_new_cases :
      (k : K)
      → (found_or_new (lookup eq k m) (length m) limit fresh ≡ none)
        ⊎ ((v : V) × (found_or_new (lookup eq k m) (length m) limit fresh ≡ some v) × Found k v)
  found_or_new_cases k = elim (Option-cases (lookup eq k m)) [
    | inr (v, hit) ↦ inr (v, rw hit refl, old hit)
    | inl miss ↦ elim (Bool-cases (ltb (length m) limit)) [
      | inl room ↦ inr (fresh, rw (miss, room) refl, unused miss (ground arith) refl)
      | inr full ↦ inl (rw (miss, full) refl)
    ]
  ]

  module _ (k : K) (v : V) where
    pub Found-AllGroups : (P : V → Type 0) → P fresh → AllGroups P m → Found k v → P v
    Found-AllGroups P p a (old hit) = lookup-AllGroups eq P k v m hit a
    Found-AllGroups P p a (unused miss room e) = subst P e p

    pub length-Found : (v' : V) → length m ≤ limit → Found k v → length (insert eq k v' m) ≤ limit
    length-Found v' h (old hit) = omega (arith, length-insert_old eq k v' v m hit)
    length-Found v' h (unused miss room e) = omega (arith, length-insert_new eq k v' m miss)

    pub size_map-Found :
        (size : V → ℕ) (v' : V)
        → size fresh ≡ 0
        → Found k v
        → size_map size (insert eq k v' m) + size v ≡ size_map size m + size v'
    size_map-Found size v' z (old hit) = size_map-insert_old eq size k v' v m hit
    size_map-Found size v' z (unused miss room e) =
        let none_yet : size v ≡ 0 = subst (λ (u : V). size u ≡ 0) e z in
        omega (arith, size_map-insert_new eq size k v' m miss)

    pub sum_map-Found :
        (amount : V → ℕ) (v' : V)
        → ((u : V) → amount u < 2 ^ 64)
        → amount fresh ≡ 0
        → Found k v
        → sum_map amount (insert eq k v' m)
          ≡ add64 (sum_map amount m) (sub64 (amount v') (amount v))
    unfolding add64 sub64
    sum_map-Found amount v' b z (old hit) =
        let low = b v in
        let high = b v' in
        sum_map-insert_old eq amount k v' v (sub64 (amount v') (amount v)) m hit (omega arith)
    sum_map-Found amount v' b z (unused miss room e) =
        let none_yet : amount v ≡ 0 = subst (λ (u : V). amount u ≡ 0) e z in
        omega (arith, sum_map-insert_new eq amount k v' m miss)

-- The balance of one entry of a map and of what overflows besides.
pub balance :
    (total v v' o o' x : ℕ)
    → add64 v' o' ≡ add64 (add64 v o) x
    → add64 (add64 total (sub64 v' v)) o' ≡ add64 (add64 total o) x
unfolding add64 sub64
balance total v v' o o' x h = omega arith
