-- ===== src/Aggregator/Lock.antt =====
-- The lock `mu` and the channels `closed` and `runStopped` between `Run` and `Close` of
-- aggregators/aggregator.go, as a step relation. The contexts are not cancelled. Batches take the lock
-- too, but release it without waiting for anything else.
use apm_aggregation.Base.Tests.{Bool-cases}
use apm_aggregation.Base.{◌≡◌, refl, sym, subst, ◌↔◌, ◌⊎◌, inl, inr, Bool, true, false, arith}

-- Where `Run` is: at its `select`, at `mu.Lock` after its timer fired, between that and `mu.Unlock`, at
-- the harvest, or returned, when `runStopped` is closed.
pub data RunAt : Type 0 where
  selecting : RunAt
  locking : RunAt
  holding : RunAt
  harvesting : RunAt
  over : RunAt

-- Where `Close` is: not called, at `mu.Lock`, waiting for `runStopped` with the lock held and `closed`
-- closed, or past that.
pub data CloseAt : Type 0 where
  idle : CloseAt
  acquiring : CloseAt
  awaiting : CloseAt
  passed : CloseAt

pub record Protocol : Type 0 where
  pub run : RunAt
  pub close : CloseAt

abbrev pub at : RunAt → CloseAt → Protocol
at r c = record { run = r; close = c }

abbrev pub run_holds : RunAt → Bool
run_holds holding = true
run_holds _ = false

abbrev pub close_holds : CloseAt → Bool
close_holds awaiting = true
close_holds _ = false

abbrev pub is_closed : CloseAt → Bool
is_closed awaiting = true
is_closed passed = true
is_closed _ = false

-- Of the channels that are ready, a `select` may take any.
pub data Move : Protocol → Protocol → Type 0 where
  fires : (c : CloseAt) → Move (at selecting c) (at locking c)
  sees_closed : (c : CloseAt) → is_closed c ≡ true → Move (at selecting c) (at over c)
  locks : (c : CloseAt) → close_holds c ≡ false → Move (at locking c) (at holding c)
  unlocks : (c : CloseAt) → Move (at holding c) (at harvesting c)
  harvested : (c : CloseAt) → Move (at harvesting c) (at selecting c)
  closes : (r : RunAt) → Move (at r idle) (at r acquiring)
  acquires : (r : RunAt) → run_holds r ≡ false → Move (at r acquiring) (at r awaiting)
  passes : Move (at over awaiting) (at over passed)

pub data Moves : Protocol → Protocol → Type 0 where
  stay : (s : Protocol) → Moves s s
  move : {s t u : Protocol} → Moves s t → Move t u → Moves s u

abbrev pub started : Protocol
started = at selecting idle

abbrev pub deadlocked : Protocol
deadlocked = at locking awaiting

abbrev pub finished : Protocol
finished = at over passed

abbrev pub IsStuck : Protocol → Type 0
IsStuck s = (t : Protocol) → ¬ Move s t

-- The loop waits for the lock that `Close` holds, or both are at their end.
abbrev pub is_stuck : RunAt → CloseAt → Bool
is_stuck selecting c = false
is_stuck locking c = close_holds c
is_stuck holding c = false
is_stuck harvesting c = false
is_stuck over passed = true
is_stuck over _ = false

not_stuck : {s t : Protocol} → Move s t → is_stuck s.run s.close ≡ false
not_stuck (fires c) = refl
not_stuck (sees_closed idle h) = refl
not_stuck (sees_closed acquiring h) = refl
not_stuck (sees_closed awaiting h) = refl
not_stuck (sees_closed passed h) = refl
not_stuck (locks c h) = h
not_stuck (unlocks c) = refl
not_stuck (harvested c) = refl
not_stuck (closes selecting) = refl
not_stuck (closes locking) = refl
not_stuck (closes holding) = refl
not_stuck (closes harvesting) = refl
not_stuck (closes over) = refl
not_stuck (acquires selecting h) = refl
not_stuck (acquires locking h) = refl
not_stuck (acquires holding h) = refl
not_stuck (acquires harvesting h) = refl
not_stuck (acquires over h) = refl
not_stuck passes = refl

next_move : (r : RunAt) (c : CloseAt) → is_stuck r c ≡ false → (t : Protocol) × Move (at r c) t
next_move selecting c h = (at locking c, fires c)
next_move locking c h = (at holding c, locks c h)
next_move holding c h = (at harvesting c, unlocks c)
next_move harvesting c h = (at selecting c, harvested c)
next_move over idle h = (at over acquiring, closes over)
next_move over acquiring h = (at over awaiting, acquires over refl)
next_move over awaiting h = (at over passed, passes)
next_move over passed h = absurd (ground arith)

stuck_cases :
    (r : RunAt) (c : CloseAt) → is_stuck r c ≡ true → (at r c ≡ deadlocked) ⊎ (at r c ≡ finished)
stuck_cases locking awaiting h = inl refl
stuck_cases locking idle h = absurd (ground arith)
stuck_cases locking acquiring h = absurd (ground arith)
stuck_cases locking passed h = absurd (ground arith)
stuck_cases over passed h = inr refl
stuck_cases over idle h = absurd (ground arith)
stuck_cases over acquiring h = absurd (ground arith)
stuck_cases over awaiting h = absurd (ground arith)
stuck_cases selecting c h = absurd (ground arith)
stuck_cases holding c h = absurd (ground arith)
stuck_cases harvesting c h = absurd (ground arith)

unmoving : (s : Protocol) → is_stuck s.run s.close ≡ true → IsStuck s
unmoving s h t m = ground (arith, not_stuck m, h)

IsStuck-cases : (s : Protocol) → IsStuck s → (s ≡ deadlocked) ⊎ (s ≡ finished)
IsStuck-cases s h = elim (Bool-cases (is_stuck s.run s.close)) [
  | inl stuck ↦ stuck_cases s.run s.close stuck
  | inr moves ↦ let (t, m) = next_move s.run s.close moves in absurd (h t m)
]

-- With contexts that are not cancelled, `Run` and `Close` can go on from every state but two: the one
-- in which both have ended, and the one in which the timer has fired and the loop waits for the lock,
-- while `Close` holds the lock and waits for the loop. Both are reached from the start of `Run`.
pub close-IsStuck :
    ((s : Protocol) → IsStuck s ↔ ((s ≡ deadlocked) ⊎ (s ≡ finished)))
    × Moves started deadlocked
    × Moves started finished
close-IsStuck = (
  λ s. (
    IsStuck-cases s,
    λ e. elim e [
      | inl dead ↦ subst IsStuck (sym dead) (unmoving deadlocked refl)
      | inr end ↦ subst IsStuck (sym end) (unmoving finished refl)
    ],
  ),
  move (move (move (stay started) (closes selecting)) (acquires selecting refl)) (fires awaiting),
  move
      (move (move (move (stay started) (closes selecting)) (acquires selecting refl))
        (sees_closed awaiting refl))
      passes,
)
