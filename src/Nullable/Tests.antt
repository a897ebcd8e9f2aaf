-- ===== src/Nullable/Tests.antt =====
-- The nullable bool at concrete values.
use apm_aggregation.Base.{◌≡◌, ◌↔◌, ◌≤◌, true, some}
use apm_aggregation.Nullable.{
  parse_bool_ptr, to_bool_ptr, true_value, to_bool_ptr-parse, parse-to_bool_ptr_iff,
}

to_bool_ptr-parse_example : to_bool_ptr (some (parse_bool_ptr (some true))) ≡ some true
to_bool_ptr-parse_example = to_bool_ptr-parse (some true)

parse-to_bool_ptr_iff_example : (parse_bool_ptr (to_bool_ptr (some 7)) ≡ 7) ↔ (7 ≤ true_value)
parse-to_bool_ptr_iff_example = parse-to_bool_ptr_iff 7
