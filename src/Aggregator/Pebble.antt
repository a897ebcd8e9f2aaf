-- ===== src/Aggregator/Pebble.antt =====
-- What aggregators/aggregator.go uses of github.com/cockroachdb/pebble: a database of type `Db` whose
-- values are of type `V`, and batches of merge operations.
use apm_aggregation.Base.{ℕ, ◌≡◌, refl, Bool, true, List, [], ◌∷◌, ◌++◌}
use apm_aggregation.Base.Tests.{if◌then◌else◌}
use apm_aggregation.Base.Lists.{All, All-append}
use apm_aggregation.Aggregator.Order.{within}

abbrev pub Entries : Type 0 → Type 0
Entries V = List (List ℕ × V)

-- `true` stands for no error.
pub record Pebble (Db V : Type 0) : Type 0 where
  -- `Finish` of the last operation of a batch, `Len`, `Commit` and `Close`.
  pub finish : Entries V → Bool
  pub len : Entries V → ℕ
  pub commit : Entries V → Db → Db × Bool
  pub close_batch : Entries V → Bool
  -- What an iterator reads of a snapshot between a lower and an upper bound, and `DeleteRange`.
  pub iterate : List ℕ → List ℕ → Db → Entries V
  pub delete_range : List ℕ → List ℕ → Db → Db × Bool
  pub close_db : Db → Bool

-- The entries from a lower bound to before an upper one, and the others.
unfoldable pub between {ℓ} : {V : Type ℓ} → List ℕ → List ℕ → List (List ℕ × V) → List (List ℕ × V)
between lb ub [] = []
between lb ub ((k, v) ∷ es) =
    let rest = between lb ub es in if within lb ub k then (k, v) ∷ rest else rest

unfoldable pub outside {ℓ} : {V : Type ℓ} → List ℕ → List ℕ → List (List ℕ × V) → List (List ℕ × V)
outside lb ub [] = []
outside lb ub ((k, v) ∷ es) =
    let rest = outside lb ub es in if within lb ub k then rest else (k, v) ∷ rest

-- The key of an entry has a property.
abbrev pub OfKey : {V : Type 0} → (List ℕ → Type 0) → List ℕ × V → Type 0
OfKey P (k, v) = P k

-- The documented behaviour: a database has entries, which iterators read in the order of their keys
-- and range deletions remove; a commit adds no keys but those of the batch.
pub record IsPebble {Db V : Type 0} (p : Pebble Db V) (contents : Db → Entries V) : Type 1 where
  pub committed :
      (P : List ℕ → Type 0) (ops : Entries V) (d : Db)
      → All (OfKey P) (contents d)
      → All (OfKey P) ops
      → All (OfKey P) (contents (p.commit ops d).0)
  pub read : (lb ub : List ℕ) (d : Db) → p.iterate lb ub d ≡ between lb ub (contents d)
  pub deleted :
      (lb ub : List ℕ) (d : Db)
      → (p.delete_range lb ub d).1 ≡ true
      → contents (p.delete_range lb ub d).0 ≡ outside lb ub (contents d)

-- An instance: the entries themselves, in the order of their arrival, where nothing fails.
unfoldable pub listed : (V : Type 0) → Pebble (Entries V) V
unfolding between outside
listed V = record {
  finish = λ ops. true;
  len = λ ops. 0;
  commit = λ ops d. (d ++ ops, true);
  close_batch = λ ops. true;
  iterate = between;
  delete_range = λ lb ub d. (outside lb ub d, true);
  close_db = λ d. true;
}

pub listed-IsPebble : (V : Type 0) → IsPebble (listed V) (λ d. d)
unfolding listed
listed-IsPebble V = record {
  committed = λ P ops d a b. All-append (OfKey P) d ops a b;
  read = λ lb ub d. refl;
  deleted = λ lb ub d h. refl;
}

pub listed-deletes :
    (V : Type 0) (lb ub : List ℕ) (d : Entries V) → ((listed V).delete_range lb ub d).1 ≡ true
unfolding listed
listed-deletes V lb ub d = refl

pub listed-commits : (V : Type 0) (ops d : Entries V) → ((listed V).commit ops d).1 ≡ true
unfolding listed
listed-commits V ops d = refl

pub listed-closes : (V : Type 0) (ops : Entries V) → (listed V).close_batch ops ≡ true
unfolding listed
listed-closes V ops = refl
