-- ===== src/Cached/Runs.antt =====
-- Runs of calls of `add` of aggregators/cachedeventsmap.go from their start.
use mathlib.Core.Logic.{ite}
use apm_aggregation.Base.{
  ℕ, zero, suc, ◌+◌, ◌*◌, ◌%◌, ◌^◌, ◌≤◌, ◌≡◌, refl, sym, ap, ◌∙◌, subst, ◌⊎◌, inl, inr, List, [],
  ◌∷◌, ◌++◌, arith,
}
use apm_aggregation.Base.Lists.{All, length}
use apm_aggregation.Base.Words.{add64}
use apm_aggregation.Cached.{
  CachedEventsStatsKey, CachedEventsStatsKey-discrete, Counts, Call, loading, storing, adding, done,
  turn,
}
use apm_aggregation.Cached.Interleaved.{
  IsPending, Steps, stop, step, count_of, pending, ranks, IsReady, moved, ran,
}

-- The calls as they start, from the keys and the scaled numbers that they add.
abbrev pub starting : List (CachedEventsStatsKey × ℕ) → List Call
starting [] = []
starting ((k, n) ∷ rest) = loading k n ∷ starting rest

abbrev pub IsDone : Call → Type 0
IsDone c = c ≡ done

-- What is added to a key.
unfoldable pub sum_at : CachedEventsStatsKey → List (CachedEventsStatsKey × ℕ) → ℕ
sum_at k [] = 0
sum_at k ((j, n) ∷ rest) = add64 (ite (CachedEventsStatsKey-discrete j k) n 0) (sum_at k rest)

starting-IsReady :
    (m : Counts) (ops : List (CachedEventsStatsKey × ℕ)) → All (IsReady m) (starting ops)
starting-IsReady m [] = tt
starting-IsReady m ((k, n) ∷ rest) = (tt, starting-IsReady m rest)

pending-starting :
    (k : CachedEventsStatsKey) (ops : List (CachedEventsStatsKey × ℕ))
    → pending k (starting ops) ≡ sum_at k ops
unfolding pending sum_at
pending-starting k [] = refl
pending-starting k ((j, n) ∷ rest) =
    ap (add64 (ite (CachedEventsStatsKey-discrete j k) n 0)) (pending-starting k rest)

pending_done : (k : CachedEventsStatsKey) (cs : List Call) → All IsDone cs → pending k cs ≡ 0
unfolding pending add64
pending_done k [] a = refl
pending_done k (c ∷ cs) a = rw (a.0, pending_done k cs a.1) refl

ranks-starting : (ops : List (CachedEventsStatsKey × ℕ)) → ranks (starting ops) ≡ 3 * length ops
unfolding ranks
ranks-starting [] = refl
ranks-starting ((k, n) ∷ rest) = omega (arith, ranks-starting rest)

last_sum : (a b p q : ℕ) → p ≡ 0 → add64 a p ≡ add64 b q → a % 2 ^ 64 ≡ add64 b q
unfolding add64
last_sum a b p q z h = omega arith

-- Calls of `add` that run at the same time on a map, their atomic operations in any order: when all
-- have ended, each key has the count that it had with the numbers of its calls added (modulo 2 ^ 64).
-- No addition is lost, and none is made twice.
pub run-sum_at :
    {n : ℕ} {m m' : Counts} {cs : List Call} (ops : List (CachedEventsStatsKey × ℕ))
    → Steps n m (starting ops) m' cs
    → All IsDone cs
    → (k : CachedEventsStatsKey) → count_of k m' % 2 ^ 64 ≡ add64 (count_of k m) (sum_at k ops)
run-sum_at {m} {m'} {cs} ops s d k =
    last_sum _ _ (pending k cs) _ (pending_done k cs d) (
      (ran s (starting-IsReady m ops)).counts k
      ∙ ap (add64 (count_of k m)) (pending-starting k ops))

-- A call that can go on, if there is one.
next_call :
    (cs : List Call)
    → All IsDone cs
      ⊎ ((before after : List Call) × (c : Call) × (cs ≡ before ++ c ∷ after) × IsPending c)
next_call [] = inl tt
next_call (loading k n ∷ cs) = inr ([], cs, loading k n, refl, tt)
next_call (storing k n ∷ cs) = inr ([], cs, storing k n, refl, tt)
next_call (adding k n ∷ cs) = inr ([], cs, adding k n, refl, tt)
next_call (done ∷ cs) = elim (next_call cs) [
  | inl all_done ↦ inl (refl, all_done)
  | inr (before, after, c, e, p) ↦ inr (done ∷ before, after, c, ap (◌∷◌ done) e, p)
]

-- A run to the end from where the calls stand.
pub record Finishes (m : Counts) (cs : List Call) : Type 0 where
  pub operations : ℕ
  pub counts : Counts
  pub calls : List Call
  pub run : Steps operations m cs counts calls
  pub ended : All IsDone calls

one_more :
    (m : Counts) (before after : List Call) (c : Call)
    → IsPending c
    → Finishes (turn c m).0 (before ++ (turn c m).1 ∷ after)
    → Finishes m (before ++ c ∷ after)
one_more m before after c p f = record {
  operations = f.operations + 1;
  counts = f.counts;
  calls = f.calls;
  run = step f.operations m f.counts before after c f.calls p f.run;
  ended = f.ended;
}

stopped : (m : Counts) (cs : List Call) → All IsDone cs → Finishes m cs
stopped m cs d = record { operations = 0; counts = m; calls = cs; run = stop m cs; ended = d }

finishing :
    (fuel : ℕ) (m : Counts) (cs : List Call) → ranks cs ≤ fuel → All (IsReady m) cs → Finishes m cs
finishing zero m cs h a = elim (next_call cs) [
  | inl d ↦ stopped m cs d
  | inr (before, after, c, e, p) ↦
      let t = moved m before after c p (subst (All (IsReady m)) e a) in
      absurd (omega (arith, t.falls, ap ranks e))
]
finishing (suc fuel) m cs h a = elim (next_call cs) [
  | inl d ↦ stopped m cs d
  | inr (before, after, c, e, p) ↦
      let t = moved m before after c p (subst (All (IsReady m)) e a) in
      subst (Finishes m) (sym e) (
        one_more m before after c p (
          finishing fuel (turn c m).0 (before ++ (turn c m).1 ∷ after)
            (omega (arith, t.falls, ap ranks e)) t.ready))
]

-- Calls of `add` that run at the same time on a map can always go on to their ends, and no run of
-- them has more than three operations for each call.
pub starting-Finishes :
    (m : Counts) (ops : List (CachedEventsStatsKey × ℕ))
    → Finishes m (starting ops)
      × ((n : ℕ) (m' : Counts) (cs : List Call)
          → Steps n m (starting ops) m' cs
          → n ≤ 3 * length ops)
starting-Finishes m ops = (
  finishing (ranks (starting ops)) m (starting ops) (omega arith) (starting-IsReady m ops),
  λ n m' cs s. omega (arith, (ran s (starting-IsReady m ops)).falls, ranks-starting ops),
)
