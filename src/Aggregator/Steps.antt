-- ===== src/Aggregator/Steps.antt =====
-- The invariant of `Run` of aggregators/aggregator.go is kept by its harvests, and so by all steps.
use apm_aggregation.Base.{
  ℕ, ◌+◌, ◌*◌, ◌<◌, ◌≡◌, refl, sym, ap, ◌∙◌, subst, true, Option, none, some, List, arith,
}
use apm_aggregation.Base.Lists.{All}
use apm_aggregation.Base.Panic.{some_eq}
use apm_aggregation.Aggregator.Pebble.{Entries, Pebble, IsPebble, OfKey}
use apm_aggregation.Aggregator.Due.{remaining}
use apm_aggregation.Aggregator.State.{Aggregator, Calls, operations}
use apm_aggregation.Aggregator.Harvest.{Harvest, then_, commit_errors, harvest, commit_and_harvest}
use apm_aggregation.Aggregator.Harvested.{harvest-Leaves}
use apm_aggregation.Aggregator.Timely.{last_time, AreIntervals, Held, decoded, held}
use apm_aggregation.Aggregator.Unfinished.{remaining-OfTimely}
use apm_aggregation.Aggregator.Kept.{Converts}
use apm_aggregation.Aggregator.Run.{
  System, system, Step, batches, fires, harvests, Runs, here, more,
}
use apm_aggregation.Aggregator.Invariant.{
  IsTimely, all_later, OfTimely-WholeKey, batches-IsTimely, fires-IsTimely,
}

module _ {Db E M V F : Type 0} (p : Pebble Db V) (x : Calls E M V F) (contents : Db → Entries V)
    (law : IsPebble p contents) (c : Converts x) {lowest : ℕ} {ivls : List ℕ}
    (a : AreIntervals lowest ivls) where
  module _ (deletes : (lb ub : List ℕ) (d : Db) → (p.delete_range lb ub d).1 ≡ true) where
    -- A harvest without a panic, after which what is left ends at the next multiple or later.
    abbrev pub Harvests : ℕ → Option (Db × Harvest M) → Type 0
    Harvests end r =
        (db : Db) × (h : Harvest M) × (r ≡ some (db, h))
        × All (OfKey (Held ivls end (end + lowest))) (contents db)

    harvest-Harvests :
        (end n : ℕ) (d : Db)
        → end ≡ n * lowest
        → end < last_time
        → All (OfKey (Held ivls end end)) (contents d)
        → Harvests end (harvest p x ivls end d)
    harvest-Harvests end n d e l h =
        let (kvs, same, ts) = decoded ivls end end (contents d) h in
        let (db, g, run, left, q) =
          harvest-Leaves p x contents law deletes ivls d end kvs a.each same
            (OfTimely-WholeKey ivls end end kvs ts) in
        (
          db,
          g,
          run,
          subst (All (OfKey (Held ivls end (end + lowest)))) (sym left) (
              held ivls end (end + lowest) (remaining ivls end kvs)
                (remaining-OfTimely a end n kvs e l ts)),
        )

    pub commit_and_harvest-Harvests :
        (end n : ℕ) (b : Option (Entries V)) (d : Db)
        → end ≡ n * lowest
        → end < last_time
        → All (OfKey (Held ivls end end)) (operations b)
        → All (OfKey (Held ivls end end)) (contents d)
        → Harvests end (commit_and_harvest p x ivls b end d)
    unfolding commit_and_harvest
    commit_and_harvest-Harvests end n none d e l hb hd = harvest-Harvests end n d e l hd
    commit_and_harvest-Harvests end n (some ops) d e l hb hd =
        let (db, g, run, left) =
          harvest-Harvests end n (p.commit ops d).0 e l (law.committed _ ops d hd hb) in
        (db, then_ (commit_errors p x ops (p.commit ops d).1) g, rw run refl, left)

    harvests-IsTimely :
        (g : Aggregator Db V) (to : ℕ) (b : Option (Entries V)) (db : Db) (h : Harvest M)
        → to < last_time
        → commit_and_harvest p x ivls b to g.db ≡ some (db, h)
        → IsTimely p x contents law c a (system g to (some b))
        → IsTimely p x contents law c a (system (record g { db = db }) (to + lowest) none)
    harvests-IsTimely g to b db h l e t =
        let now = g.processing_time in
        let same : to ≡ now = t.aligned in
        let at = λ (es : Entries V) (held : All (OfKey (Held ivls now to)) es).
          all_later ivls now to to es (omega (arith, same)) held in
        let (db', h', run, left) =
          commit_and_harvest-Harvests to t.turn b g.db (same ∙ t.multiple) l
            (at (operations b) t.harvesting) (at (contents g.db) t.stored) in
        let same_db : db' ≡ db = ap (λ (r : Db × Harvest M). r.0) (some_eq (sym run ∙ e)) in
        record {
          turn = t.turn;
          multiple = t.multiple;
          modern = t.modern;
          aligned = ap (λ n. n + lowest) same;
          stored =
              all_later ivls to now (to + lowest) (contents db) (omega (arith, same))
                (subst (λ d. All (OfKey (Held ivls to (to + lowest))) (contents d)) same_db left);
          batched = t.batched;
          harvesting = tt;
        }

    pub Step-IsTimely :
        (s t : System Db V)
        → Step p x lowest ivls s t
        → IsTimely p x contents law c a s
        → IsTimely p x contents law c a t
    Step-IsTimely _ _ (batches done prefer id es g to t l) h =
        batches-IsTimely p x contents law c a done prefer id es g to t l h
    Step-IsTimely _ _ (fires g to) h = fires-IsTimely p x contents law c a g to h
    Step-IsTimely _ _ (harvests g to b db r l e) h = harvests-IsTimely g to b db r l e h

    pub run-IsTimely :
        (s t : System Db V)
        → Runs p x lowest ivls s t
        → IsTimely p x contents law c a s
        → IsTimely p x contents law c a t
    run-IsTimely s _ (here _) h = h
    run-IsTimely s t (more {t = mid} step rest) h =
        run-IsTimely mid t rest (Step-IsTimely s mid step h)
