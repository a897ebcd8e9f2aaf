-- ===== src/Models/Env.antt =====
-- What the code takes from outside the repository: the arithmetic of float64, the cardinality
-- sketch of github.com/axiomhq/hyperloglog, and the digest of github.com/cespare/xxhash.
use apm_aggregation.Base.{ℕ, ◌≡◌, refl, ◌≢◌, List, [], ◌∷◌, ◌++◌, ◌+◌, arith}
use apm_aggregation.Pb.{Text}

-- `F` is float64, `S` a sketch, `D` a digest. A marshalled sketch is not empty and reads back.
pub record Env (F S D : Type 0) : Type 0 where
  pub zero : F
  pub add : F → F → F
  pub new14 : S
  pub insert_hash : S → ℕ → S
  pub merge_sketch : S → S → S
  pub marshal_sketch : S → Text
  pub unmarshal_sketch : Text → S
  pub unmarshal-marshal : (s : S) → unmarshal_sketch (marshal_sketch s) ≡ s
  pub marshal-ne-nil : (s : S) → marshal_sketch s ≢ []
  pub digest : D
  pub write : D → Text → D
  pub sum64 : D → ℕ

-- An instance: counts as floats, sketches that list their hashes, digests that list their input.
cons-ne-nil : (s : List ℕ) → 0 ∷ s ≢ []
cons-ne-nil s h = ground arith

tail_of : List ℕ → List ℕ
tail_of [] = []
tail_of (x ∷ xs) = xs

tail_of-cons : (s : List ℕ) → tail_of (0 ∷ s) ≡ s
unfolding tail_of
tail_of-cons s = refl

sum_of : List ℕ → ℕ
sum_of [] = 0
sum_of (x ∷ xs) = x + sum_of xs

unfoldable pub listing : Env ℕ (List ℕ) (List ℕ)
unfolding tail_of sum_of cons-ne-nil tail_of-cons
listing = record {
  zero = 0;
  add = ◌+◌;
  new14 = [];
  insert_hash = λ s h. h ∷ s;
  merge_sketch = ◌++◌;
  marshal_sketch = λ s. 0 ∷ s;
  unmarshal_sketch = tail_of;
  unmarshal-marshal = tail_of-cons;
  marshal-ne-nil = cons-ne-nil;
  digest = [];
  write = ◌++◌;
  sum64 = sum_of;
}
