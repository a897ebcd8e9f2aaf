-- ===== src/Aggregator/Invariant.antt =====
-- The invariant of `Run` and of the batches that come in, aggregators/aggregator.go, and the progress
-- of the loop.
use apm_aggregation.Base.{
  ℕ, suc, ◌+◌, ◌*◌, ◌≤◌, ◌≡◌, refl, sym, ◌∙◌, subst, Bool, Option, none, some, List, [], ◌∷◌, arith,
}
use apm_aggregation.Base.Lists.{All, get_elem?, length}
use apm_aggregation.Codec.Key.{CombinedMetricsKey}
use apm_aggregation.Aggregator.Pebble.{Entries, Pebble, IsPebble, OfKey}
use apm_aggregation.Aggregator.Due.{WholeKey}
use apm_aggregation.Aggregator.State.{Aggregator, Calls, operations, aggregate_batch}
use apm_aggregation.Aggregator.Harvest.{then_, take_batch}
use apm_aggregation.Aggregator.Timely.{AreIntervals, Timely, Held, OfTimely}
use apm_aggregation.Aggregator.Kept.{Converts, aggregate_batch-Has}
use apm_aggregation.Aggregator.Run.{System, system}
use apm_aggregation.Aggregator.Written.{first_time, written-Held}

-- While the loop waits, `to` is the end of the lowest interval that goes on; while it harvests, the
-- processing time.
abbrev pub Aligned : {V : Type 0} → ℕ → Option (Option (Entries V)) → ℕ → ℕ → Type 0
Aligned lowest none time to = to ≡ time + lowest
Aligned lowest (some b) time to = to ≡ time

-- What is left to harvest of a batch that the loop took.
abbrev pub pending : {V : Type 0} → Option (Option (Entries V)) → Entries V
pending none = []
pending (some b) = operations b

later-Timely :
    (ivls : List ℕ) (now then_ ending : ℕ) (k : CombinedMetricsKey)
    → now ≤ then_
    → Timely ivls now ending k
    → Timely ivls then_ ending k
later-Timely ivls now then_ ending k l t = record {
  whole = t.whole;
  place = t.place;
  listed = t.listed;
  turn = t.turn;
  time = t.time;
  modern = t.modern;
  started = omega (arith, t.started, l);
  unfinished = t.unfinished;
}

pub all_later :
    {V : Type 0} (ivls : List ℕ) (now then_ ending : ℕ) (es : Entries V)
    → now ≤ then_
    → All (OfKey (Held ivls now ending)) es
    → All (OfKey (Held ivls then_ ending)) es
all_later ivls now then_ ending [] l h = tt
all_later ivls now then_ ending ((kb, v) ∷ es) l h =
    let (k, same, t) = h.0 in
    ((k, same, later-Timely ivls now then_ ending k l t), all_later ivls now then_ ending es l h.1)

sooner-Held :
    (ivls : List ℕ) (now ending until : ℕ)
    → until ≤ ending
    → (kb : List ℕ) → Held ivls now ending kb
    → Held ivls now until kb
sooner-Held ivls now ending until l kb (k, same, t) = (
  k,
  same,
  record {
    whole = t.whole;
    place = t.place;
    listed = t.listed;
    turn = t.turn;
    time = t.time;
    modern = t.modern;
    started = t.started;
    unfinished = omega (arith, t.unfinished, l);
  },
)

pub OfTimely-WholeKey :
    {V : Type 0} (ivls : List ℕ) (now ending : ℕ) (kvs : List (CombinedMetricsKey × V))
    → All (OfTimely ivls now ending) kvs
    → All WholeKey kvs
OfTimely-WholeKey ivls now ending [] a = tt
OfTimely-WholeKey ivls now ending (kv ∷ kvs) a =
    (a.0.whole, OfTimely-WholeKey ivls now ending kvs a.1)

module _ {Db E M V F : Type 0} (p : Pebble Db V) (x : Calls E M V F) (contents : Db → Entries V)
    (law : IsPebble p contents) (c : Converts x) {lowest : ℕ} {ivls : List ℕ}
    (a : AreIntervals lowest ivls) where
  -- Every key in the database, in the batch and in a batch that is harvested is of a configured
  -- interval that has started by the processing time and ends at `to` or later.
  pub record IsTimely (s : System Db V) : Type 0 where
    pub turn : ℕ
    pub multiple : s.aggregator.processing_time ≡ turn * lowest
    pub modern : first_time ≤ s.aggregator.processing_time
    pub aligned : Aligned lowest s.taken s.aggregator.processing_time s.to
    pub stored :
        All (OfKey (Held ivls s.aggregator.processing_time s.to)) (contents s.aggregator.db)
    pub batched :
        All
          (OfKey (Held ivls s.aggregator.processing_time (s.aggregator.processing_time + lowest)))
          (operations s.aggregator.batch)
    pub harvesting : All (OfKey (Held ivls s.aggregator.processing_time s.to)) (pending s.taken)

  Aligned-le :
      (t : Option (Option (Entries V))) (time to : ℕ)
      → Aligned lowest t time to
      → to ≤ time + lowest
  Aligned-le none time to h = omega (arith, h)
  Aligned-le (some b) time to h = omega (arith, h)

  pub batches-IsTimely :
      (done prefer : Bool) (id : List ℕ) (es : List E) (g : Aggregator Db V) (to : ℕ)
      (t : Option (Option (Entries V)))
      → length id ≡ 16
      → IsTimely (system g to t)
      → IsTimely (system (aggregate_batch p x done prefer ivls id es g).state to t)
  batches-IsTimely done prefer id es g to t l h =
      let time = g.processing_time in
      let fits =
        written-Held a time h.turn (time + lowest) h.multiple (omega arith) h.modern id l ivls 0
          (λ i ivl e. subst (λ i. get_elem? ivls i ≡ some ivl) (omega arith) e) in
      let k =
        aggregate_batch-Has p x contents law (Held ivls time to) (Held ivls time (time + lowest))
          (sooner-Held ivls time (time + lowest) to (Aligned-le t time to h.aligned)) c done prefer
          ivls id es time g fits
          (record { stored = h.stored; batched = h.batched; at_time = refl }) in
      let r = (aggregate_batch p x done prefer ivls id es g).state in
      let same = sym k.at_time in
      let moved : time ≤ r.processing_time = omega (arith, same) in
      record {
        turn = h.turn;
        multiple = k.at_time ∙ h.multiple;
        modern = omega (arith, h.modern, same);
        aligned = subst (λ now. Aligned lowest t now to) same h.aligned;
        stored = all_later ivls time r.processing_time to (contents r.db) moved k.stored;
        batched =
            subst (λ now. All (OfKey (Held ivls now (now + lowest))) (operations r.batch)) same
              k.batched;
        harvesting = all_later ivls time r.processing_time to (pending t) moved h.harvesting;
      }

  pub fires-IsTimely :
      (g : Aggregator Db V) (to : ℕ)
      → IsTimely (system g to none)
      → IsTimely (system (take_batch p x to g).1 to (some (take_batch p x to g).0))
  unfolding take_batch
  fires-IsTimely g to h =
      let later : g.processing_time ≤ to = omega (arith, h.aligned) in
      record {
        turn = suc h.turn;
        multiple = omega (arith, h.aligned, h.multiple);
        modern = omega (arith, h.modern, later);
        aligned = refl;
        stored = all_later ivls g.processing_time to to _ later h.stored;
        batched = tt;
        harvesting = all_later ivls g.processing_time to to (operations g.batch) later (
            subst (λ e. All (OfKey (Held ivls g.processing_time e)) (operations g.batch))
              (sym h.aligned) h.batched);
      }
