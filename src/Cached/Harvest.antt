-- ===== src/Cached/Harvest.antt =====
-- What a harvest takes out of the map of aggregators/cachedeventsmap.go.
use mathlib.Core.Logic.{if_pos, if_neg}
use apm_aggregation.Base.{ℕ, ◌/◌, ◌≡◌, refl, sym, ap, ◌∙◌, inl, inr, Option, none, some, [], ◌∷◌}
use apm_aggregation.Base.Tests.{if◌then◌else◌, Bool-cases}
use apm_aggregation.Base.Assoc.{lookup}
use apm_aggregation.Cached.{
  CachedEventsStatsKey, CachedEventsStatsKey-discrete, Counts, ends_at, load_and_delete, max_uint16,
}

module _ {F : Type 0} (to_float : ℕ → F) where
  abbrev pub harvested : Option ℕ → Option F
  harvested none = none
  harvested (some v) = some (to_float (v / max_uint16))

  -- What a harvest does to a key.
  pub record Takes (end : ℕ) (m : Counts) (k : CachedEventsStatsKey) : Type 0 where
    pub taken : lookup CachedEventsStatsKey-discrete k (load_and_delete to_float end m).0 ≡ (
        if ends_at end k.interval
        then harvested (lookup CachedEventsStatsKey-discrete k m)
        else none)
    pub left :
        lookup CachedEventsStatsKey-discrete k (load_and_delete to_float end m).1
        ≡ (if ends_at end k.interval then none else lookup CachedEventsStatsKey-discrete k m)

  -- `loadAndDelete` takes exactly the entries of the intervals that end at `end` and leaves the others
  -- as they are. A count that is taken is the quotient of the scaled number without its fraction.
  pub load_and_delete-Takes : (end : ℕ) (m : Counts) (k : CachedEventsStatsKey) → Takes end m k
  unfolding load_and_delete lookup
  load_and_delete-Takes end [] k = elim (Bool-cases (ends_at end k.interval)) [
    | inl ends ↦ record { taken = rw ends refl; left = rw ends refl }
    | inr goes_on ↦ record { taken = rw goes_on refl; left = rw goes_on refl }
  ]
  load_and_delete-Takes end ((j, v) ∷ m) k =
      let t = load_and_delete-Takes end m k in
      elim (CachedEventsStatsKey-discrete j k) [
        | yes same ↦ elim (Bool-cases (ends_at end j.interval)) [
          | inl on ↦
              let e = ap (λ (x : CachedEventsStatsKey). ends_at end x.interval) (sym same) ∙ on in
              record {
                taken = rw (on, e, if_pos _ same, if_pos _ same) refl;
                left = rw (on, e) (t.left ∙ rw e refl);
              }
          | inr off ↦
              let e = ap (λ (x : CachedEventsStatsKey). ends_at end x.interval) (sym same) ∙ off in
              record {
                taken = rw (off, e) (t.taken ∙ rw e refl);
                left = rw (off, e, if_pos _ same, if_pos _ same) refl;
              }
        ]
        | no other ↦ elim (Bool-cases (ends_at end j.interval)) [
          | inl on ↦ record {
            taken = rw (on, if_neg _ other) (t.taken ∙ rw (if_neg _ other) refl);
            left = rw on (t.left ∙ rw (if_neg _ other) refl);
          }
          | inr off ↦ record {
            taken = rw off (t.taken ∙ rw (if_neg _ other) refl);
            left = rw (off, if_neg _ other) (t.left ∙ rw (if_neg _ other) refl);
          }
        ]
      ]
