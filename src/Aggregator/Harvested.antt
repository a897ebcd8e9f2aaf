-- ===== src/Aggregator/Harvested.antt =====
-- What `harvest` of aggregators/aggregator.go does to a database of encoded keys.
use mathlib.Core.List.{append_assoc}
use apm_aggregation.Base.{
  ℕ, ◌+◌, ◌-◌, ◌≡◌, refl, sym, ap, subst, ◌∙◌, true, Option, none, some, List, [], ◌∷◌, ◌++◌, inl,
  inr, arith,
}
use apm_aggregation.Base.Tests.{Bool-cases, Option-cases}
use apm_aggregation.Base.Lists.{All, length, length-append}
use apm_aggregation.Codec.Key.{CombinedMetricsKey}
use apm_aggregation.Codec.Key.RoundTrip.{unmarshal_encoding}
use apm_aggregation.Cached.{ends_at}
use apm_aggregation.Aggregator.Bounds.{bound, IsInterval}
use apm_aggregation.Aggregator.Pebble.{Entries, Pebble, IsPebble, between, outside}
use apm_aggregation.Aggregator.Due.{
  encoded, WholeKey, OfInterval, due, kept, remaining, taken, due-OfInterval, between-encoded,
  outside-encoded, All-due, All-kept,
}
use apm_aggregation.Aggregator.State.{Calls}
use apm_aggregation.Aggregator.Harvest.{
  Harvest, nothing, then_, harvest_entries, harvest_for_interval, harvest_intervals, harvest,
  process_harvest,
}

abbrev pub call : {M : Type 0} → CombinedMetricsKey → Option M → List (CombinedMetricsKey × M × ℕ)
call k none = []
call k (some cm) = (k, cm, k.interval) ∷ []

module _ {Db E M V F : Type 0} (p : Pebble Db V) (x : Calls E M V F) (contents : Db → Entries V)
    (law : IsPebble p contents) where
  -- The calls of the processor for entries whose metrics can be read.
  abbrev pub calls_of : List (CombinedMetricsKey × V) → List (CombinedMetricsKey × M × ℕ)
  calls_of [] = []
  calls_of ((k, v) ∷ kvs) = call k (x.unmarshal_vt v) ++ calls_of kvs

  calls_of-append :
      (ls rs : List (CombinedMetricsKey × V)) → calls_of (ls ++ rs) ≡ calls_of ls ++ calls_of rs
  calls_of-append [] rs = refl
  calls_of-append ((k, v) ∷ ls) rs =
      ap (λ c. call k (x.unmarshal_vt v) ++ c) (calls_of-append ls rs)
      ∙ sym (append_assoc (call k (x.unmarshal_vt v)) (calls_of ls) (calls_of rs))

  -- A harvest of these entries: each is handed to the processor, and counted or an error.
  pub record Processes (kvs : List (CombinedMetricsKey × V)) (h : Harvest M) : Type 0 where
    pub calls : h.calls ≡ calls_of kvs
    pub counted : h.cm_count + length h.errors ≡ length kvs

  process_harvest-Processes :
      (k : CombinedMetricsKey) (v : V)
      → Processes ((k, v) ∷ []) (process_harvest p x k v k.interval)
  unfolding process_harvest
  process_harvest-Processes k v = elim (Option-cases (x.unmarshal_vt v)) [
    | inl bad ↦ rw bad (record { calls = rw bad refl; counted = refl })
    | inr (cm, good) ↦ elim (Bool-cases (x.processor k cm k.interval)) [
      | inl fine ↦ rw (good, fine) (record { calls = rw good refl; counted = refl })
      | inr error ↦ rw (good, error) (record { calls = rw good refl; counted = refl })
    ]
  ]

  Processes-append :
      (ls rs : List (CombinedMetricsKey × V)) (h g : Harvest M)
      → Processes ls h
      → Processes rs g
      → Processes (ls ++ rs) (then_ h g)
  Processes-append ls rs h g ph pg = record {
    calls = rw (ph.calls, pg.calls) (sym (calls_of-append ls rs));
    counted =
        omega (arith, ph.counted, pg.counted, length-append ls rs, length-append h.errors g.errors);
  }

  none_processed : Processes [] (nothing M)
  none_processed = record { calls = refl; counted = refl }

  harvest_entries-encoded :
      (ivl : ℕ) (kvs : List (CombinedMetricsKey × V))
      → All WholeKey kvs
      → All (OfInterval ivl) kvs
      → (h : Harvest M) × (harvest_entries p x ivl (encoded kvs) ≡ some h) × Processes kvs h
  unfolding harvest_entries
  harvest_entries-encoded ivl [] w o = (nothing M, refl, none_processed)
  harvest_entries-encoded ivl ((k, v) ∷ kvs) w o =
      let (g, run, q) = harvest_entries-encoded ivl kvs w.1 o.1 in
      let one = process_harvest p x k v ivl in
      (
        then_ one g,
        rw (unmarshal_encoding k w.0, run) refl,
        Processes-append ((k, v) ∷ []) kvs one g
            (subst (λ i. Processes ((k, v) ∷ []) (process_harvest p x k v i)) o.0
              (process_harvest-Processes k v))
            q,
      )

  -- A database in which the entries `kvs` are left after a harvest of `taken`.
  abbrev pub Leaves :
      Option (Db × Harvest M)
      → List (CombinedMetricsKey × V)
      → List (CombinedMetricsKey × V)
      → Type 0
  Leaves r kvs taken =
      (db : Db) × (h : Harvest M) × (r ≡ some (db, h))
      × (contents db ≡ encoded kvs)
      × Processes taken h

  harvest_for_interval-Leaves :
      ((lb ub : List ℕ) (d : Db) → (p.delete_range lb ub d).1 ≡ true)
      → (snap db : Db) (start end ivl : ℕ) (old now : List (CombinedMetricsKey × V))
      → IsInterval ivl
      → contents snap ≡ encoded old
      → contents db ≡ encoded now
      → All WholeKey old
      → All WholeKey now
      → Leaves
          (harvest_for_interval p x snap start end ivl db)
          (kept ivl start end now)
          (due ivl start end old)
  unfolding harvest_for_interval
  harvest_for_interval-Leaves deletes snap db start end ivl old now i eo en wo wn =
      let lb = bound ivl start in
      let ub = bound ivl end in
      let (h, run, q) =
        harvest_entries-encoded ivl (due ivl start end old) (All-due ivl start end old wo)
          (due-OfInterval ivl start end old) in
      let read : p.iterate lb ub snap ≡ encoded (due ivl start end old) =
        law.read lb ub snap ∙ ap (between lb ub) eo ∙ between-encoded ivl start end old i wo in
      let gone = deletes lb ub db in
      (
        (p.delete_range lb ub db).0,
        h,
        rw (read, run, gone) refl,
        law.deleted lb ub db gone ∙ ap (outside lb ub) en ∙ outside-encoded ivl start end now i wn,
        q,
      )

  harvest_intervals-Leaves :
      ((lb ub : List ℕ) (d : Db) → (p.delete_range lb ub d).1 ≡ true)
      → (ivls : List ℕ) (snap db : Db) (end : ℕ) (old now : List (CombinedMetricsKey × V))
      → All IsInterval ivls
      → contents snap ≡ encoded old
      → contents db ≡ encoded now
      → All WholeKey old
      → All WholeKey now
      → Leaves
          (harvest_intervals p x ivls snap end db)
          (remaining ivls end now)
          (taken ivls end old)
  unfolding harvest_intervals
  harvest_intervals-Leaves deletes [] snap db end old now i eo en wo wn =
      (db, nothing M, refl, en, none_processed)
  harvest_intervals-Leaves deletes (ivl ∷ ivls) snap db end old now i eo en wo wn =
      elim (Bool-cases (ends_at end ivl)) [
        | inl ends ↦
            let (mid, h, one, em, q) =
              harvest_for_interval-Leaves deletes snap db (end - ivl) end ivl old now i.0 eo en wo
                wn in
            let (last, g, more, e, r) =
              harvest_intervals-Leaves deletes ivls snap mid end old (kept ivl (end - ivl) end now)
                i.1 eo em wo (All-kept ivl (end - ivl) end now wn) in
            (
              last,
              then_ h g,
              rw (ends, one, more) refl,
              rw ends e,
              rw ends (Processes-append _ _ h g q r),
            )
        | inr on ↦
            let (last, g, more, e, r) =
              harvest_intervals-Leaves deletes ivls snap db end old now i.1 eo en wo wn in
            (
              last,
              then_ (nothing M) g,
              rw (on, more) refl,
              rw on e,
              rw on (Processes-append [] _ (nothing M) g none_processed r),
            )
      ]

  -- On a database whose keys are encoded keys of whole seconds, and if range deletions do not fail,
  -- `harvest` does not panic. It hands to the processor, in order, every entry of an interval that
  -- ends at `end` whose time lies in that interval before `end` and whose metrics can be read; each of
  -- these entries is either counted or an error, and they are what it removes, the failed ones too.
  pub harvest-Leaves :
      ((lb ub : List ℕ) (d : Db) → (p.delete_range lb ub d).1 ≡ true)
      → (ivls : List ℕ) (db : Db) (end : ℕ) (kvs : List (CombinedMetricsKey × V))
      → All IsInterval ivls
      → contents db ≡ encoded kvs
      → All WholeKey kvs
      → Leaves (harvest p x ivls end db) (remaining ivls end kvs) (taken ivls end kvs)
  unfolding harvest
  harvest-Leaves deletes ivls db end kvs i e w =
      harvest_intervals-Leaves deletes ivls db db end kvs kvs i e e w w
