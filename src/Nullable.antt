-- ===== src/Nullable.antt =====
-- `nullable.Bool` of aggregators/nullable/bool.go: a bool that can be unset, as a uint32.
mod Tests
use apm_aggregation.Base.{
  ℕ, ◌≤◌, ◌≡◌, refl, ◌↔◌, Bool, true, false, ◌||◌, Option, none, some, arith,
}
use apm_aggregation.Base.Tests.{◌==◌, if◌then◌else◌}

-- `Nil`, `False` and `True`.
abbrev pub nil_value : ℕ
nil_value = 0

abbrev pub false_value : ℕ
false_value = 1

abbrev pub true_value : ℕ
true_value = 2

unfoldable pub parse_bool_ptr : Option Bool → ℕ
parse_bool_ptr none = nil_value
parse_bool_ptr (some b) = if b then true_value else false_value

-- The receiver may be a nil pointer. A value that is none of the three leaves `b` false.
unfoldable pub to_bool_ptr : Option ℕ → Option Bool
to_bool_ptr none = none
to_bool_ptr (some n) =
    if n == nil_value
    then none
    else some (if n == false_value then false else (if n == true_value then true else false))

-- Parsing a pointer and reading it back gives the pointer's value.
pub to_bool_ptr-parse : (b : Option Bool) → to_bool_ptr (some (parse_bool_ptr b)) ≡ b
unfolding to_bool_ptr parse_bool_ptr
to_bool_ptr-parse none = refl
to_bool_ptr-parse (some true) = refl
to_bool_ptr-parse (some false) = refl

-- The other way round a value survives exactly when it is one of the three constants.
pub parse-to_bool_ptr_iff : (n : ℕ) → (parse_bool_ptr (to_bool_ptr (some n)) ≡ n) ↔ (n ≤ true_value)
unfolding to_bool_ptr parse_bool_ptr
parse-to_bool_ptr_iff n = (λ h. ground arith, λ h. ground arith)
