-- ===== src/Constraint.antt =====
-- `Constraint` of aggregators/internal/constraint/constraint.go: a counter and its limit. Counters
-- start at the length of a map and go up by one, so they do not wrap; a limit below 0, which
-- compares with a counter as 0 does, is not modelled.
use apm_aggregation.Base.{ℕ, ◌+◌, Bool}
use apm_aggregation.Base.Tests.{leb}

pub record Constraint : Type 0 where
  pub counter : ℕ
  pub limit : ℕ

unfoldable pub new : ℕ → ℕ → Constraint
new initial_count limit = record { counter = initial_count; limit = limit }

unfoldable pub maxed : Constraint → Bool
maxed c = leb c.limit c.counter

unfoldable pub add : Constraint → ℕ → Constraint
add c delta = record c { counter = c.counter + delta }

unfoldable pub value : Constraint → ℕ
value c = c.counter

unfoldable pub limit_of : Constraint → ℕ
limit_of c = c.limit
