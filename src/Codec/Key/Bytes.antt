-- ===== src/Codec/Key/Bytes.antt =====
-- Numbers as bytes, and writes and reads at an offset.
use apm_aggregation.Base.{
  ℕ, zero, suc, ◌+◌, ◌-◌, ◌*◌, ◌/◌, ◌%◌, ◌≡◌, refl, ap, sym, List, [], ◌∷◌, ◌++◌, arith,
}
use apm_aggregation.Base.Lists.{length, take, drop, length-append}
use apm_aggregation.Codec.Key.{big_endian, read_big_endian, put_at, slice}

-- The number less its last `n` bytes.
abbrev pub above : ℕ → ℕ → ℕ
above zero v = v
above (suc n) v = above n (v / 256)

pub length-big_endian : (n v : ℕ) → length (big_endian n v) ≡ n
unfolding big_endian
length-big_endian zero v = refl
length-big_endian (suc n) v =
    omega (
      arith,
      length-append (big_endian n (v / 256)) ((v % 256) ∷ []),
      length-big_endian n (v / 256),
    )

read_snoc :
    (acc b : ℕ) (bs : List ℕ)
    → read_big_endian acc (bs ++ b ∷ []) ≡ read_big_endian acc bs * 256 + b
unfolding read_big_endian
read_snoc acc b [] = refl
read_snoc acc b (c ∷ bs) = read_snoc (acc * 256 + c) b bs

-- A number that fits into `n` bytes is read back.
pub read-big_endian : (n v : ℕ) → above n v ≡ 0 → read_big_endian 0 (big_endian n v) ≡ v
unfolding read_big_endian big_endian
read-big_endian zero v h = sym h
read-big_endian (suc n) v h =
    omega (arith, read_snoc 0 (v % 256) (big_endian n (v / 256)), read-big_endian n (v / 256) h)

pub take_left : (m : ℕ) (xs ys : List ℕ) → m ≡ length xs → take m (xs ++ ys) ≡ xs
take_left zero [] ys h = refl
take_left zero (x ∷ xs) ys h = absurd (omega (arith, h))
take_left (suc m) [] ys h = absurd (omega (arith, h))
take_left (suc m) (x ∷ xs) ys h = ap (◌∷◌ x) (take_left m xs ys (omega (arith, h)))

drop_left : (m n : ℕ) (xs ys : List ℕ) → m ≡ length xs + n → drop m (xs ++ ys) ≡ drop n ys
drop_left m n [] ys h = ap (λ k. drop k ys) (omega (arith, h))
drop_left zero n (x ∷ xs) ys h = absurd (omega (arith, h))
drop_left (suc m) n (x ∷ xs) ys h = drop_left m n xs ys (omega (arith, h))

-- A write after what is already written.
pub put_at_lem :
    (offset : ℕ) (xs bytes rest : List ℕ)
    → length xs ≡ offset
    → put_at (xs ++ rest) offset bytes ≡ (xs ++ bytes) ++ drop (length bytes) rest
unfolding put_at
put_at_lem offset xs bytes rest h =
    rw
      (
        take_left offset xs rest (sym h),
        drop_left (offset + length bytes) (length bytes) xs rest (omega (arith, h)),
      )
      refl

pub slice_lem :
    (lo hi : ℕ) (xs ys zs : List ℕ)
    → length xs ≡ lo
    → lo + length ys ≡ hi
    → slice (xs ++ (ys ++ zs)) lo hi ≡ ys
unfolding slice
slice_lem lo hi xs ys zs h k =
    rw (drop_left lo 0 xs (ys ++ zs) (omega (arith, h)))
      (take_left (hi - lo) ys zs (omega (arith, k)))
