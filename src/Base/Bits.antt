-- ===== src/Base/Bits.antt =====
-- Bit operations of Go on the bit patterns of int32 and int64, and `bits.LeadingZeros64` of the
-- standard library.
use Prim.Native.Nat.{max, min, digits, bit_or, bit_or-bitwise}
use native.Mathlib.Nat.{pow-le-pow_right, pow-suc}
use apm_aggregation.Base.{
  ℕ, zero, suc, ◌+◌, ◌-◌, ◌*◌, ◌/◌, ◌%◌, ◌^◌, ◌≤◌, ◌<◌, ◌≡◌, ◌≢◌, refl, ap, ◌∙◌, inl, inr, arith,
}
use apm_aggregation.Base.Tests.{◌==◌, if◌then◌else◌, compare_cases}
use apm_aggregation.Base.Words.{negative64}

-- `a >> s` on int64: the sign fills from the left. A longer shift leaves the sign alone.
unfoldable pub shift_right64 : ℕ → ℕ → ℕ
shift_right64 a s =
    let p = 2 ^ min s 63 in if negative64 a then 2 ^ 64 - 1 - (2 ^ 64 - 1 - a) / p else a / p

-- `a << s`; a longer shift leaves nothing.
unfoldable pub shift_left32 : ℕ → ℕ → ℕ
shift_left32 a s = a * 2 ^ min s 32 % 2 ^ 32

unfoldable pub shift_left64 : ℕ → ℕ → ℕ
shift_left64 a s = a * 2 ^ min s 64 % 2 ^ 64

-- The number of binary digits of a number below 2 ^ n.
unfoldable pub digits_of : ℕ → ℕ → ℕ
digits_of zero x = 0
digits_of (suc n) x = let rest = digits_of n (x / 2) in if x == 0 then 0 else suc rest

unfoldable pub leading_zeros64 : ℕ → ℕ
unfolding digits_of
leading_zeros64 x = 64 - digits_of 64 x

-- The laws of `bit_or` for the lowest digit, and for a mask of eight ones.
abbrev or_digits : ℕ → ℕ → ℕ → ℕ
or_digits n a b = digits (λ b. b) max n a b

or_digits_fuel : (n m a b : ℕ) → a ≤ n → a ≤ m → or_digits n a b ≡ or_digits m a b
or_digits_fuel zero zero a b p q = refl
or_digits_fuel zero (suc m) zero b p q = refl
or_digits_fuel zero (suc m) (suc a) b p q = absurd (omega arith)
or_digits_fuel (suc n) zero zero b p q = refl
or_digits_fuel (suc n) zero (suc a) b p q = absurd (omega arith)
or_digits_fuel (suc n) (suc m) zero b p q = refl
or_digits_fuel (suc n) (suc m) (suc a) b p q =
    omega (arith, or_digits_fuel n m (suc a / 2) (b / 2) (omega arith) (omega arith))

zero-bit_or : (b : ℕ) → bit_or 0 b ≡ b
zero-bit_or b = bit_or-bitwise 0 b

bit_or_step : (a b : ℕ) → bit_or a b ≡ bit_or (a / 2) (b / 2) * 2 + max (a % 2) (b % 2)
bit_or_step zero b = omega (arith, zero-bit_or b, zero-bit_or (b / 2))
bit_or_step (suc a) b = omega (
  arith,
  bit_or-bitwise (suc a) b,
  bit_or-bitwise (suc a / 2) (b / 2),
  or_digits_fuel a (suc a / 2) (suc a / 2) (b / 2) (omega arith) (omega arith),
)

bit_or-zero_fuel : (n a : ℕ) → a ≤ n → bit_or a 0 ≡ a
bit_or-zero_fuel n zero h = refl
bit_or-zero_fuel zero (suc a) h = absurd (omega arith)
bit_or-zero_fuel (suc n) (suc a) h =
    omega (arith, bit_or_step (suc a) 0, bit_or-zero_fuel n (suc a / 2) (omega arith))

bit_or-one : (a : ℕ) → bit_or a 1 ≡ a / 2 * 2 + 1
bit_or-one a = omega (arith, bit_or_step a 1, bit_or-zero_fuel (a / 2) (a / 2) (omega arith))

bit_or-three : (a : ℕ) → bit_or a 3 ≡ a / 4 * 4 + 3
bit_or-three a = omega (arith, bit_or_step a 3, bit_or-one (a / 2))

bit_or-fifteen : (a : ℕ) → bit_or a 15 ≡ a / 16 * 16 + 15
bit_or-fifteen a = omega (arith, bit_or_step a 15, bit_or_step (a / 2) 7, bit_or-three (a / 2 / 2))

pub bit_or-low_byte : (a : ℕ) → bit_or a 255 ≡ a / 256 * 256 + 255
bit_or-low_byte a = omega (
  arith,
  bit_or_step a 255,
  bit_or_step (a / 2) 127,
  bit_or_step (a / 2 / 2) 63,
  bit_or_step (a / 2 / 2 / 2) 31,
  bit_or-fifteen (a / 2 / 2 / 2 / 2),
)

-- `k + 1` binary digits.
pub record HasDigits (x k : ℕ) : Type 0 where
  pub above : 2 ^ k ≤ x
  pub below : x < 2 * 2 ^ k

pub double : (k : ℕ) → 2 ^ suc k ≡ 2 * 2 ^ k
double k = omega (arith, pow-suc 2 k)

pub grown : (i j : ℕ) → i ≤ j → 2 ^ i ≤ 2 ^ j
grown i j h = pow-le-pow_right (omega arith) h

digits_of-zero : (n : ℕ) → digits_of n 0 ≡ 0
unfolding digits_of
digits_of-zero zero = refl
digits_of-zero (suc n) = refl

half_of : (n x : ℕ) → x ≢ 0 → digits_of (suc n) x ≡ suc (digits_of n (x / 2))
unfolding digits_of
half_of n x h = ground arith

pub digits_of-HasDigits :
    (n x : ℕ) → 0 < x → x < 2 ^ n → (k : ℕ) × (digits_of n x ≡ suc k) × (k < n) × HasDigits x k
unfolding digits_of
digits_of-HasDigits zero x p h = absurd (omega arith)
digits_of-HasDigits (suc n) x p h = elim (compare_cases x 1) [
  | inl low ↦ absurd (omega arith)
  | inr (inl one) ↦ (
    0,
    half_of n x (omega arith) ∙ ap suc (rw one (digits_of-zero n)),
    omega arith,
    record { above = omega arith; below = omega arith },
  )
  | inr (inr more) ↦
      let (k, e, f, d) = digits_of-HasDigits n (x / 2) (omega arith) (omega (arith, double n)) in
      (
        suc k,
        half_of n x (omega arith) ∙ ap suc e,
        omega arith,
        record {
          above = omega (arith, d.above, double k);
          below = omega (arith, d.below, double k);
        },
      )
]

pub HasDigits-unique : (x k j : ℕ) → HasDigits x k → HasDigits x j → k ≡ j
HasDigits-unique x k j a b = elim (compare_cases k j) [
  | inl low ↦ absurd (omega (arith, a.below, b.above, double k, grown (suc k) j (omega arith)))
  | inr (inl same) ↦ same
  | inr (inr high) ↦
      absurd (omega (arith, b.below, a.above, double j, grown (suc j) k (omega arith)))
]
