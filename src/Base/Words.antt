-- ===== src/Base/Words.antt =====
-- Go's fixed-size integers, as the bit patterns of their two's complement: a number below 2 ^ w.
use Prim.Native.Nat.{ℕ, ◌+◌, ◌-◌, ◌%◌, ◌^◌, ◌<◌}
use mathlib.Core.Path.{◌≡◌}
use mathlib.Core.Bool.{Bool}
use native.Mathlib.Omega.{arith}
use apm_aggregation.Base.Tests.{ltb, if◌then◌else◌}

-- `a + b` on int64 and uint64.
unfoldable pub add64 : ℕ → ℕ → ℕ
add64 a b = (a + b) % 2 ^ 64

-- `a - b` on int32.
unfoldable pub sub32 : ℕ → ℕ → ℕ
sub32 a b = (a + 2 ^ 32 - b) % 2 ^ 32

-- `a < 0` on int32 and int64.
abbrev pub negative32 : ℕ → Bool
negative32 a = ltb (2 ^ 31 - 1) a

abbrev pub negative64 : ℕ → Bool
negative64 a = ltb (2 ^ 63 - 1) a

-- `a < b` on int32: the patterns shifted by half the range are ordered as the numbers are.
abbrev pub lt32 : ℕ → ℕ → Bool
lt32 a b = ltb ((a + 2 ^ 31) % 2 ^ 32) ((b + 2 ^ 31) % 2 ^ 32)

pub add64_comm : (a b : ℕ) → add64 a b ≡ add64 b a
unfolding add64
add64_comm a b = omega arith

pub add64_assoc : (a b c : ℕ) → add64 (add64 a b) c ≡ add64 a (add64 b c)
unfolding add64
add64_assoc a b c = omega arith

pub add64-zero : (a : ℕ) → a < 2 ^ 64 → add64 a 0 ≡ a
unfolding add64
add64-zero a h = omega arith

pub zero-add64 : (a : ℕ) → a < 2 ^ 64 → add64 0 a ≡ a
unfolding add64
zero-add64 a h = omega arith

pub add64-lt : (a b : ℕ) → add64 a b < 2 ^ 64
unfolding add64
add64-lt a b = omega arith

-- `a + b` on int32, and the conversions between int32 and int64.
unfoldable pub add32 : ℕ → ℕ → ℕ
add32 a b = (a + b) % 2 ^ 32

unfoldable pub to_int32 : ℕ → ℕ
to_int32 a = a % 2 ^ 32

unfoldable pub to_int64 : ℕ → ℕ
to_int64 a = if negative32 a then a + (2 ^ 64 - 2 ^ 32) else a

-- `a - b` on int64 and uint64.
unfoldable pub sub64 : ℕ → ℕ → ℕ
sub64 a b = (a + (2 ^ 64 - b % 2 ^ 64)) % 2 ^ 64
