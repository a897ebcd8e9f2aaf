-- ===== src/Merger/Histogram/Rounds.antt =====
-- All the rounds of the loop of `mergeHistogram`: what is left of both sides is merged in place.
use mathlib.Core.List.{append_assoc}
use apm_aggregation.Base.{
  ℕ, suc, ◌≤◌, ◌<◌, ◌^◌, ◌≡◌, sym, ap, subst, ◌∙◌, some, List, [], ◌∷◌, ◌++◌, arith,
}
use apm_aggregation.Base.Lists.{length, take, length-append, All-append}
use apm_aggregation.Bars.{Bar, Below, InRange, IsSortedFrom, combine, merge}
use apm_aggregation.Bars.Snoc.{merge-snoc_left, merge-snoc_right, merge-snoc_both}
use apm_aggregation.Pb.{HdrHistogram}
use apm_aggregation.Merger.Histogram.{fill}
use apm_aggregation.Merger.Histogram.Fill.{
  buckets_of, counts_of, Columns, cursor, fill_step_both, fill_step_to, fill_step_from,
}
use apm_aggregation.Merger.Histogram.Loop.{
  Ends, nothing, last, fill-suc, sorted_last, range_last, Below-mono, take-append_le,
}

pub record Round (low : ℕ) (front : List Bar) (from : HdrHistogram) (xs fs rest : List Bar)
    : Type 0 where
  pub cols : Columns from (fs ++ rest)
  pub sorted_to : IsSortedFrom 0 xs
  pub sorted_from : IsSortedFrom low fs
  pub range_to : InRange xs
  pub range_from : InRange fs
  pub reach : length front ≤ length xs
  pub prefix : take (length front) xs ≡ front
  pub below : Below low front

abbrev pub Filled : ℕ → HdrHistogram → ℕ → List Bar → List Bar → List Bar → List Bar → Type 0
Filled start from k xs fs gap done =
    fill start from k (cursor (length xs) (length fs) (xs ++ (gap ++ done)))
    ≡ some (buckets_of (merge xs fs ++ done), counts_of (merge xs fs ++ done))

pub length-snoc {ℓ} : {A : Type ℓ} (xs : List A) (x : A) → length (xs ++ x ∷ []) ≡ suc (length xs)
length-snoc xs x = omega (arith, length-append xs (x ∷ []))

-- The slot that a round writes is the last of the gap with the bar before it.
pub record Slot (xs : List Bar) (x : Bar) (gap done : List Bar) : Type 0 where
  pub before : List Bar
  pub g : Bar
  pub size : length before ≡ length gap
  pub same : xs ++ x ∷ (gap ++ done) ≡ (xs ++ before) ++ g ∷ done

pub Slot-at : (xs : List Bar) (x : Bar) (gap done : List Bar) → Ends (x ∷ gap) → Slot xs x gap done
Slot-at xs x gap done (nothing e) = absurd (ground (arith, ap length e))
Slot-at xs x gap done (last ys y e n) = record {
  before = ys;
  g = y;
  size = omega arith;
  same =
      ap (◌++◌ xs) (ap (λ zs. zs ++ done) e ∙ append_assoc ys (y ∷ []) done)
      ∙ sym (append_assoc xs ys (y ∷ done));
}

module _ (low : ℕ) (front : List Bar) (from : HdrHistogram) (xs : List Bar) (x : Bar)
    (fs : List Bar) (f : Bar) (rest : List Bar)
    (r : Round low front from (xs ++ x ∷ []) (fs ++ f ∷ []) rest)
    (ahead : length front ≤ length xs) where
  cols : Columns from (fs ++ f ∷ rest)
  cols = subst (Columns from) (append_assoc fs (f ∷ []) rest) r.cols

  hx : x.bucket < 2 ^ 31
  hx = (range_last xs x r.range_to).1

  hf : f.bucket < 2 ^ 31
  hf = (range_last fs f r.range_from).1

  prefix_left : take (length front) xs ≡ front
  prefix_left = sym (take-append_le (length front) xs (x ∷ []) ahead) ∙ r.prefix

  sorted_xs : IsSortedFrom 0 xs
  sorted_xs = (sorted_last 0 xs x r.sorted_to).0

  range_xs : InRange xs
  range_xs = (range_last xs x r.range_to).0

  sorted_fs : IsSortedFrom low fs
  sorted_fs = (sorted_last low fs f r.sorted_from).0

  range_fs : InRange fs
  range_fs = (range_last fs f r.range_from).0

  -- What is left after a round that takes from `to`, from `from`, or from both.
  pub Round-to : Round low front from xs (fs ++ f ∷ []) rest
  Round-to = record {
    cols = r.cols;
    sorted_to = sorted_xs;
    sorted_from = r.sorted_from;
    range_to = range_xs;
    range_from = r.range_from;
    reach = ahead;
    prefix = prefix_left;
    below = r.below;
  }

  pub Round-from : Round low front from (xs ++ x ∷ []) fs (f ∷ rest)
  Round-from = record {
    cols = cols;
    sorted_to = r.sorted_to;
    sorted_from = sorted_fs;
    range_to = r.range_to;
    range_from = range_fs;
    reach = r.reach;
    prefix = r.prefix;
    below = r.below;
  }

  pub Round-both : Round low front from xs fs (f ∷ rest)
  Round-both = record {
    cols = cols;
    sorted_to = sorted_xs;
    sorted_from = sorted_fs;
    range_to = range_xs;
    range_from = range_fs;
    reach = ahead;
    prefix = prefix_left;
    below = r.below;
  }

  pub Below-x : Below x.bucket xs
  Below-x = (sorted_last 0 xs x r.sorted_to).1

  pub Below-f : Below f.bucket fs
  Below-f = (sorted_last low fs f r.sorted_from).1

  module _ (gap done : List Bar) (sl : Slot xs x gap done) where
    -- The list in the slices, read at the slot.
    seam : (xs ++ x ∷ []) ++ (gap ++ done) ≡ (xs ++ sl.before) ++ sl.g ∷ done
    seam = append_assoc xs (x ∷ []) (gap ++ done) ∙ sl.same

    pub Filled-both :
        x.bucket ≡ f.bucket
        → Filled (length front) from (length (xs ++ sl.before)) xs fs sl.before (combine x f ∷ done)
        → Filled
            (length front)
            from
            (suc (length (xs ++ sl.before)))
            (xs ++ x ∷ [])
            (fs ++ f ∷ [])
            gap
            done
    Filled-both e ih =
        rw
          (
            length-snoc xs x,
            length-snoc fs f,
            seam,
            merge-snoc_both xs x fs f e Below-x (rw e Below-f),
            append_assoc (merge xs fs) (combine x f ∷ []) done,
          )
          (fill-suc (length front) (length (xs ++ sl.before)) from _ _ (omega arith) (omega arith) (
              fill_step_both from fs f rest cols hf xs x hx (gap ++ done) (xs ++ sl.before) sl.g
                done sl.same e)
            ∙ rw (append_assoc xs sl.before (combine x f ∷ done)) ih)

    pub Filled-to :
        f.bucket < x.bucket
        → Filled
            (length front)
            from
            (length (xs ++ sl.before))
            xs
            (fs ++ f ∷ [])
            sl.before
            (x ∷ done)
        → Filled
            (length front)
            from
            (suc (length (xs ++ sl.before)))
            (xs ++ x ∷ [])
            (fs ++ f ∷ [])
            gap
            done
    Filled-to e ih =
        rw
          (
            length-snoc xs x,
            length-snoc fs f,
            seam,
            merge-snoc_left xs x (fs ++ f ∷ [])
                (All-append _ fs (f ∷ []) (Below-mono fs (omega arith) Below-f) (e, tt)),
            append_assoc (merge xs (fs ++ f ∷ [])) (x ∷ []) done,
          )
          (fill-suc (length front) (length (xs ++ sl.before)) from _ _ (omega arith) (omega arith) (
              fill_step_to from fs f rest cols hf xs x hx (gap ++ done) (xs ++ sl.before) sl.g done
                sl.same e)
            ∙ rw (append_assoc xs sl.before (x ∷ done), ← length-snoc fs f) ih)

  pub Filled-from :
      (gap : List Bar) (g : Bar) (done : List Bar)
      → x.bucket < f.bucket
      → Filled (length front) from (length ((xs ++ x ∷ []) ++ gap)) (xs ++ x ∷ []) fs gap (f ∷ done)
      → Filled
          (length front)
          from
          (suc (length ((xs ++ x ∷ []) ++ gap)))
          (xs ++ x ∷ [])
          (fs ++ f ∷ [])
          (gap ++ g ∷ [])
          done
  Filled-from gap g done e ih =
      let whole : List Bar = xs ++ x ∷ [] in
      let shape : whole ++ ((gap ++ g ∷ []) ++ done) ≡ (whole ++ gap) ++ g ∷ done =
        ap (◌++◌ whole) (append_assoc gap (g ∷ []) done)
        ∙ sym (append_assoc whole gap (g ∷ done)) in
      rw
        (
          shape,
          length-snoc xs x,
          length-snoc fs f,
          merge-snoc_right (xs ++ x ∷ []) fs f
              (All-append _ xs (x ∷ []) (Below-mono xs (omega arith) Below-x) (e, tt)),
          append_assoc (merge (xs ++ x ∷ []) fs) (f ∷ []) done,
        )
        (fill-suc (length front) (length (whole ++ gap)) from _ _ (omega arith) (omega arith) (
            fill_step_from from fs f rest cols hf xs x hx _ (whole ++ gap) g done
              (sym (append_assoc xs (x ∷ []) _) ∙ shape) e)
          ∙ rw (append_assoc whole gap (f ∷ done), ← length-snoc xs x) ih)
