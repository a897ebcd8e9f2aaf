-- ===== src/Merger/Groups/Counts.antt =====
-- Counting what groups hold, in the map and in the overflow bucket, over a merge of groups: for any
-- count of groups and of overflow buckets that single merges add up.
use mathlib.Core.Logic.{if_pos, if_neg}
use apm_aggregation.Base.{
  ℕ, ◌≡◌, refl, sym, subst, ◌∙◌, inl, inr, ◌||◌, Option, none, some, List, [], ◌∷◌, arith,
}
use apm_aggregation.Base.Tests.{Option-cases, Bool-cases}
use apm_aggregation.Base.Words.{add64, add64_assoc}
use apm_aggregation.Base.Panic.{some_eq}
use apm_aggregation.Base.Assoc.{lookup, insert}
use apm_aggregation.Base.Lists.{All}
use apm_aggregation.Constraint.{maxed, add}
use apm_aggregation.Merger.Groups.{
  Groups, add_group, merge_group, merge_at, merge_one, merge_groups,
}

module _ {V : Type 0} (amount : V → ℕ) where
  unfoldable pub sum_list : List V → ℕ
  sum_list [] = 0
  sum_list (v ∷ vs) = add64 (amount v) (sum_list vs)

module _ {K V : Type 0} (amount : V → ℕ) where
  unfoldable pub sum_map : List (K × V) → ℕ
  sum_map [] = 0
  sum_map ((k, v) ∷ m) = add64 (amount v) (sum_map m)

module _ {K V : Type 0} (eq : Discrete K) (amount : V → ℕ) where
  pub sum_map-insert_new :
      (k : K) (v : V) (m : List (K × V))
      → lookup eq k m ≡ none
      → sum_map amount (insert eq k v m) ≡ add64 (sum_map amount m) (amount v)
  unfolding sum_map lookup insert add64
  sum_map-insert_new k v [] h = omega arith
  sum_map-insert_new k v ((j, w) ∷ m) h = ground (arith, sum_map-insert_new k v m)

  pub sum_map-insert_old :
      (k : K) (v w : V) (x : ℕ) (m : List (K × V))
      → lookup eq k m ≡ some w
      → amount v ≡ add64 (amount w) x
      → sum_map amount (insert eq k v m) ≡ add64 (sum_map amount m) x
  unfolding sum_map lookup insert add64
  sum_map-insert_old k v w x [] h e = ground arith
  sum_map-insert_old k v w x ((j, u) ∷ m) h e = ground (arith, sum_map-insert_old k v w x m)

-- All groups of a map.
abbrev pub AllGroups : {K V : Type 0} → (V → Type 0) → List (K × V) → Type 0
AllGroups P = All (λ e. P e.1)

module _ {K V : Type 0} (eq : Discrete K) (P : V → Type 0) where
  pub lookup-AllGroups :
      (k : K) (v : V) (m : List (K × V)) → lookup eq k m ≡ some v → AllGroups P m → P v
  unfolding lookup
  lookup-AllGroups k v [] h a = ground arith
  lookup-AllGroups k v ((j, w) ∷ m) h a = elim (eq j k) [
    | yes same ↦ subst P (some_eq (rw (if_pos _ same) at h)) a.0
    | no other ↦ lookup-AllGroups k v m (rw (if_neg _ other) at h) a.1
  ]

  pub insert-AllGroups :
      (k : K) (v : V) (m : List (K × V)) → P v → AllGroups P m → AllGroups P (insert eq k v m)
  unfolding insert
  insert-AllGroups k v [] p a = (p, tt)
  insert-AllGroups k v ((j, w) ∷ m) p a = elim (eq j k) [
    | yes same ↦ rw (if_pos _ same) (p, a.1)
    | no other ↦ rw (if_neg _ other) (a.0, insert-AllGroups k v m p a.1)
  ]

swap_last : (a b c : ℕ) → add64 (add64 a c) b ≡ add64 (add64 a b) c
unfolding add64
swap_last a b c = omega arith

add64-idem_zero : (a b : ℕ) → add64 a b ≡ add64 (add64 a b) 0
unfolding add64
add64-idem_zero a b = omega arith

-- The outcome: `from` is accounted for.
pub record Accounts {K V O : Type 0} (P : V → Type 0) (Q : O → Type 0) (amount : V → ℕ)
    (lost : O → ℕ) (st : Groups K V O) (incoming : ℕ) (st' : Groups K V O) : Type 0 where
  pub groups : AllGroups P st'.to
  pub bucket : Q st'.overflow
  pub amounts :
      add64 (sum_map amount st'.to) (lost st'.overflow)
      ≡ add64 (add64 (sum_map amount st.to) (lost st.overflow)) incoming

module _ {K V O : Type 0} (eq : Discrete K) (key : V → K) (merge_keyed : V → V → Option V)
    (overflow : O → V → Option O) (P : V → Type 0) (Q : O → Type 0) (amount : V → ℕ) (lost : O → ℕ)
    (merges : (a b : V)
      → P a
      → P b
      → (c : V) × (merge_keyed a b ≡ some c) × P c × (amount c ≡ add64 (amount a) (amount b)))
    (overflows : (o : O) (v : V)
      → Q o
      → P v
      → (o' : O) × (overflow o v ≡ some o') × Q o' × (lost o' ≡ add64 (lost o) (amount v))) where
  -- A state in which every group and the bucket are well formed.
  pub add_group-Accounts :
      (st : Groups K V O) (k : K) (v : V)
      → lookup eq k st.to ≡ none
      → AllGroups P st.to
      → Q st.overflow
      → P v
      → (st' : Groups K V O) × (add_group eq overflow st k v ≡ some st')
        × Accounts P Q amount lost st (amount v) st'
  unfolding add_group
  add_group-Accounts st k v miss a q p =
      let (o, run, q', e) = overflows st.overflow v q p in
      elim (Bool-cases (maxed st.per_svc || maxed st.global)) [
        | inl full ↦ (
          record st { overflow = o },
          rw (full, run),
          record { groups = a; bucket = q'; amounts = rw e (sym (add64_assoc _ _ _)) },
        )
        | inr free ↦ (
          record st {
            to = insert eq k v st.to;
            per_svc = add st.per_svc 1;
            global = add st.global 1;
          },
          rw free,
          record {
            groups = insert-AllGroups eq P k v st.to p a;
            bucket = q;
            amounts = rw (sum_map-insert_new eq amount k v st.to miss) (swap_last _ _ _);
          },
        )
      ]

  pub merge_group-Accounts :
      (st : Groups K V O) (k : K) (to v : V)
      → lookup eq k st.to ≡ some to
      → AllGroups P st.to
      → Q st.overflow
      → P v
      → (st' : Groups K V O) × (merge_group eq merge_keyed st k to v ≡ some st')
        × Accounts P Q amount lost st (amount v) st'
  unfolding merge_group
  merge_group-Accounts st k to v hit a q p =
      let (c, run, pc, e) = merges to v (lookup-AllGroups eq P k to st.to hit a) p in
      (
        record st { to = insert eq k c st.to },
        rw run,
        record {
          groups = insert-AllGroups eq P k c st.to pc a;
          bucket = q;
          amounts = rw (sum_map-insert_old eq amount k c to _ st.to hit e) (swap_last _ _ _);
        },
      )

  merge_one-Accounts :
      (st : Groups K V O) (v : V)
      → AllGroups P st.to
      → Q st.overflow
      → P v
      → (st' : Groups K V O) × (merge_one eq key merge_keyed overflow st v ≡ some st')
        × Accounts P Q amount lost st (amount v) st'
  unfolding merge_one
  merge_one-Accounts st v a q p = elim (Option-cases (lookup eq (key v) st.to)) [
    | inl miss ↦ rw (miss, merge_at) (add_group-Accounts st (key v) v miss a q p)
    | inr (to, hit) ↦ rw (hit, merge_at) (merge_group-Accounts st (key v) to v hit a q p)
  ]

  -- Every incoming group is accounted for, in the map or in the overflow bucket.
  pub merge_groups-Accounts :
      (st : Groups K V O) (vs : List V)
      → AllGroups P st.to
      → Q st.overflow
      → All P vs
      → (st' : Groups K V O) × (merge_groups eq key merge_keyed overflow st vs ≡ some st')
        × Accounts P Q amount lost st (sum_list amount vs) st'
  unfolding merge_groups sum_list
  merge_groups-Accounts st [] a q p =
      (st, refl, record { groups = a; bucket = q; amounts = add64-idem_zero _ _ })
  merge_groups-Accounts st (v ∷ vs) a q p =
      let (mid, one, r) = merge_one-Accounts st v a q p.0 in
      let (end, run, s) = merge_groups-Accounts mid vs r.groups r.bucket p.1 in
      (
        end,
        rw one run,
        record {
          groups = s.groups;
          bucket = s.bucket;
          amounts = s.amounts ∙ rw r.amounts (add64_assoc _ _ _);
        },
      )
