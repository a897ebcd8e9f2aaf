-- ===== src/Aggregator/Order.antt =====
-- The order of encoded keys that `harvestForInterval` of aggregators/aggregator.go reads by: pebble
-- compares keys byte by byte, and the encoding writes the interval first, then the time.
use mathlib.Core.List.{append_assoc}
use apm_aggregation.Base.{
  ℕ, zero, suc, ◌/◌, ◌%◌, ◌^◌, ◌<◌, ◌≡◌, refl, ◌∙◌, Bool, true, false, not, ◌&&◌, ◌||◌, List, [],
  ◌∷◌, ◌++◌, arith,
}
use apm_aggregation.Base.Tests.{ltb, ◌==◌}
use apm_aggregation.Base.Lists.{length, replicate}
use apm_aggregation.Codec.Key.{big_endian}

unfoldable pub before : List ℕ → List ℕ → Bool
before xs [] = false
before [] (y ∷ ys) = true
before (x ∷ xs) (y ∷ ys) = ltb x y || x == y && before xs ys

-- From a lower bound, which is in it, to an upper one, which is not.
unfoldable pub within : List ℕ → List ℕ → List ℕ → Bool
unfolding before
within lb ub k = not (before k lb) && before k ub

-- Two numbers compared, and what follows if they are equal.
abbrev pub first : ℕ → ℕ → Bool → Bool
first a b rest = ltb a b || a == b && rest

first-digits :
    (a b : ℕ) (rest : Bool)
    → first (a / 256) (b / 256) (first (a % 256) (b % 256) rest) ≡ first a b rest
first-digits a b rest = ground arith

digit-lt : (n a : ℕ) → a < 256 ^ suc n → a / 256 < 256 ^ n
digit-lt n a h = omega arith

no_digits : (a b : ℕ) (rest : Bool) → a < 256 ^ 0 → b < 256 ^ 0 → rest ≡ first a b rest
no_digits a b rest h k = ground arith

pub before-big_endian :
    (n a b : ℕ) (xs ys : List ℕ)
    → a < 256 ^ n
    → b < 256 ^ n
    → before (big_endian n a ++ xs) (big_endian n b ++ ys) ≡ first a b (before xs ys)
unfolding big_endian before
before-big_endian zero a b xs ys h k = no_digits a b (before xs ys) h k
before-big_endian (suc n) a b xs ys h k =
    let p = big_endian n (a / 256) in
    let q = big_endian n (b / 256) in
    rw (append_assoc p ((a % 256) ∷ []) xs, append_assoc q ((b % 256) ∷ []) ys)
      (before-big_endian n (a / 256) (b / 256) ((a % 256) ∷ xs) ((b % 256) ∷ ys) (digit-lt n a h)
          (digit-lt n b k)
        ∙ first-digits a b (before xs ys))

-- Nothing is before zeros, unless it is shorter.
pub before-replicate : (xs : List ℕ) → before xs (replicate (length xs) 0) ≡ false
unfolding before
before-replicate [] = refl
before-replicate (x ∷ xs) = ground (arith, before-replicate xs)
