-- ===== src/Cached/Interleaved.antt =====
-- Calls of `add` of aggregators/cachedeventsmap.go that run at the same time: their atomic operations
-- in any order, with nothing deleted meanwhile.
use mathlib.Core.Logic.{ite, if_pos, if_neg}
use apm_aggregation.Base.{
  ℕ, ◌+◌, ◌≤◌, ◌≡◌, ◌≢◌, refl, sym, ap, ◌∙◌, inl, inr, Option, none, some, List, [], ◌∷◌, ◌++◌,
  arith,
}
use apm_aggregation.Base.Tests.{Option-cases}
use apm_aggregation.Base.Lists.{All}
use apm_aggregation.Base.Words.{add64}
use apm_aggregation.Base.Assoc.{lookup, insert, lookup-insert}
use apm_aggregation.Cached.{
  CachedEventsStatsKey, CachedEventsStatsKey-discrete, Counts, Call, loading, storing, adding, done,
  turn,
}

-- One operation of one of the calls, which has not ended.
abbrev pub IsPending : Call → Type 0
IsPending done = ⊥
IsPending (loading k n) = Unit {0}
IsPending (storing k n) = Unit {0}
IsPending (adding k n) = Unit {0}

pub data Steps : ℕ → Counts → List Call → Counts → List Call → Type 0 where
  stop : (m : Counts) (cs : List Call) → Steps 0 m cs m cs
  step :
      (n : ℕ) (m m' : Counts) (before after : List Call) (c : Call) (cs' : List Call)
      → IsPending c
      → Steps n (turn c m).0 (before ++ (turn c m).1 ∷ after) m' cs'
      → Steps (n + 1) m (before ++ c ∷ after) m' cs'

-- The count of a key, and what a call still adds to it.
abbrev or_zero : Option ℕ → ℕ
or_zero none = 0
or_zero (some v) = v

abbrev pub count_of : CachedEventsStatsKey → Counts → ℕ
count_of k m = or_zero (lookup CachedEventsStatsKey-discrete k m)

abbrev at_key : CachedEventsStatsKey → CachedEventsStatsKey → ℕ → ℕ
at_key k j n = ite (CachedEventsStatsKey-discrete j k) n 0

abbrev pub amount : CachedEventsStatsKey → Call → ℕ
amount k (loading j n) = at_key k j n
amount k (storing j n) = at_key k j n
amount k (adding j n) = at_key k j n
amount k done = 0

unfoldable pub pending : CachedEventsStatsKey → List Call → ℕ
pending k [] = 0
pending k (c ∷ cs) = add64 (amount k c) (pending k cs)

-- The operations that a call has left at most.
abbrev pub rank : Call → ℕ
rank (loading k n) = 3
rank (storing k n) = 2
rank (adding k n) = 1
rank done = 0

unfoldable pub ranks : List Call → ℕ
ranks [] = 0
ranks (c ∷ cs) = rank c + ranks cs

-- The entry that a call will add to is there.
abbrev pub IsReady : Counts → Call → Type 0
IsReady m (loading k n) = Unit {0}
IsReady m (storing k n) = Unit {0}
IsReady m (adding k n) = lookup CachedEventsStatsKey-discrete k m ≢ none
IsReady m done = Unit {0}

-- Entries stay.
abbrev pub Grows : Counts → Counts → Type 0
Grows m m' =
    (k : CachedEventsStatsKey)
    → lookup CachedEventsStatsKey-discrete k m ≢ none
    → lookup CachedEventsStatsKey-discrete k m' ≢ none

record Turned (c : Call) (m : Counts) : Type 0 where
  ready : IsReady (turn c m).0 (turn c m).1
  grows : Grows m (turn c m).0
  counts :
      (k : CachedEventsStatsKey)
      → add64 (count_of k (turn c m).0) (amount k (turn c m).1) ≡ add64 (count_of k m) (amount k c)
  falls : IsPending c → rank (turn c m).1 + 1 ≤ rank c

Grows-insert :
    (k : CachedEventsStatsKey) (v : ℕ) (m : Counts)
    → Grows m (insert CachedEventsStatsKey-discrete k v m)
Grows-insert k v m j h = ground (arith, lookup-insert CachedEventsStatsKey-discrete k j v m)

-- The count of every key after a store at one key.
count_of-insert :
    (k j : CachedEventsStatsKey) (v n old : ℕ) (m : Counts)
    → count_of k m ≡ old
    → add64 v 0 ≡ add64 old n
    → add64 (count_of j (insert CachedEventsStatsKey-discrete k v m)) 0
      ≡ add64 (count_of j m) (at_key j k n)
count_of-insert k j v n old m e f =
    rw (lookup-insert CachedEventsStatsKey-discrete k j v m)
      (elim (CachedEventsStatsKey-discrete k j) [
        | yes same ↦
            rw
              (
                if_pos _ same,
                if_pos _ same,
                ap (λ (x : CachedEventsStatsKey). count_of x m) (sym same) ∙ e,
              )
              f
        | no other ↦ rw (if_neg _ other, if_neg _ other) refl
      ])

Turned-loading : (k : CachedEventsStatsKey) (n : ℕ) (m : Counts) → Turned (loading k n) m
unfolding turn
Turned-loading k n m = elim (Option-cases (lookup CachedEventsStatsKey-discrete k m)) [
  | inl miss ↦ record {
    ready = rw miss tt;
    grows = λ j h. h;
    counts = rw miss (λ j. refl);
    falls = rw miss (λ p. omega arith);
  }
  | inr (v, hit) ↦ record {
    ready = rw hit (λ h. ground (arith, h));
    grows = λ j h. h;
    counts = rw hit (λ j. refl);
    falls = rw hit (λ p. omega arith);
  }
]

Turned-storing : (k : CachedEventsStatsKey) (n : ℕ) (m : Counts) → Turned (storing k n) m
unfolding turn add64
Turned-storing k n m = elim (Option-cases (lookup CachedEventsStatsKey-discrete k m)) [
  | inl miss ↦ record {
    ready = rw miss tt;
    grows = rw miss (Grows-insert k n m);
    counts = rw miss (λ j. count_of-insert k j n n 0 m (rw miss refl) (omega arith));
    falls = rw miss (λ p. omega arith);
  }
  | inr (v, hit) ↦ record {
    ready = rw hit (λ h. ground (arith, h));
    grows = rw hit (λ j h. h);
    counts = rw hit (λ j. refl);
    falls = rw hit (λ p. omega arith);
  }
]

Turned-adding :
    (k : CachedEventsStatsKey) (n : ℕ) (m : Counts) → IsReady m (adding k n) → Turned (adding k n) m
unfolding turn add64
Turned-adding k n m r = elim (Option-cases (lookup CachedEventsStatsKey-discrete k m)) [
  | inl miss ↦ absurd (r miss)
  | inr (v, hit) ↦ record {
    ready = tt;
    grows = rw hit (Grows-insert k (add64 v n) m);
    counts = rw hit (λ j. count_of-insert k j (add64 v n) n v m (rw hit refl) (omega arith));
    falls = λ p. omega arith;
  }
]

turned : (c : Call) (m : Counts) → IsReady m c → Turned c m
unfolding turn
turned (loading k n) m r = Turned-loading k n m
turned (storing k n) m r = Turned-storing k n m
turned (adding k n) m r = Turned-adding k n m r
turned done m r = record { ready = tt; grows = λ j h. h; counts = λ j. refl; falls = λ p. absurd p }

IsReady-Grows : (m m' : Counts) (c : Call) → Grows m m' → IsReady m c → IsReady m' c
IsReady-Grows m m' (loading k n) g r = tt
IsReady-Grows m m' (storing k n) g r = tt
IsReady-Grows m m' (adding k n) g r = g k r
IsReady-Grows m m' done g r = tt

all-IsReady :
    (m m' : Counts) (cs : List Call) → Grows m m' → All (IsReady m) cs → All (IsReady m') cs
all-IsReady m m' [] g a = tt
all-IsReady m m' (c ∷ cs) g a = (IsReady-Grows m m' c g a.0, all-IsReady m m' cs g a.1)

-- What one operation does to all calls.
pub record Moved (m : Counts) (cs : List Call) (m' : Counts) (cs' : List Call) : Type 0 where
  pub ready : All (IsReady m') cs'
  pub grows : Grows m m'
  pub counts :
      (k : CachedEventsStatsKey)
      → add64 (count_of k m') (pending k cs') ≡ add64 (count_of k m) (pending k cs)
  pub falls : ranks cs' + 1 ≤ ranks cs

at_head : (a b p q x : ℕ) → add64 a p ≡ add64 b q → add64 a (add64 p x) ≡ add64 b (add64 q x)
unfolding add64
at_head a b p q x h = omega arith

behind : (a b x p q : ℕ) → add64 a p ≡ add64 b q → add64 a (add64 x p) ≡ add64 b (add64 x q)
unfolding add64
behind a b x p q h = omega arith

pub moved :
    (m : Counts) (before after : List Call) (c : Call)
    → IsPending c
    → All (IsReady m) (before ++ c ∷ after)
    → Moved m (before ++ c ∷ after) (turn c m).0 (before ++ (turn c m).1 ∷ after)
unfolding pending ranks
moved m [] after c p a =
    let t = turned c m a.0 in
    record {
      ready = (t.ready, all-IsReady m (turn c m).0 after t.grows a.1);
      grows = t.grows;
      counts = λ k. at_head _ _ _ _ (pending k after) (t.counts k);
      falls = omega (arith, t.falls p);
    }
moved m (b ∷ before) after c p a =
    let i = moved m before after c p a.1 in
    record {
      ready = (IsReady-Grows m (turn c m).0 b i.grows a.0, i.ready);
      grows = i.grows;
      counts = λ k. behind _ _ (amount k b) _ _ (i.counts k);
      falls = omega (arith, i.falls);
    }

-- What a run does.
pub record Ran (n : ℕ) (m : Counts) (cs : List Call) (m' : Counts) (cs' : List Call) : Type 0 where
  pub counts :
      (k : CachedEventsStatsKey)
      → add64 (count_of k m') (pending k cs') ≡ add64 (count_of k m) (pending k cs)
  pub falls : ranks cs' + n ≤ ranks cs

pub ran :
    {n : ℕ} {m m' : Counts} {cs cs' : List Call}
    → Steps n m cs m' cs'
    → All (IsReady m) cs
    → Ran n m cs m' cs'
ran (stop m cs) a = record { counts = λ k. refl; falls = omega arith }
ran (step n m m' before after c cs' p s) a =
    let one = moved m before after c p a in
    let rest = ran s one.ready in
    record {
      counts = λ k. rest.counts k ∙ one.counts k;
      falls = omega (arith, one.falls, rest.falls);
    }
