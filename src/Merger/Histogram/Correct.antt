-- ===== src/Merger/Histogram/Correct.antt =====
-- The loop of `mergeHistogram` from its start: the rounds by induction on their number.
use mathlib.Core.List.{append_assoc}
use apm_aggregation.Base.{
  ℕ, zero, suc, ◌+◌, ◌≤◌, ◌<◌, ◌≡◌, refl, sym, ap, subst, ◌∙◌, ◌⊎◌, inl, inr, List, [], ◌∷◌, ◌++◌,
  arith,
}
use apm_aggregation.Base.Tests.{compare_cases}
use apm_aggregation.Base.Lists.{length, length-append, take_all, All-append}
use apm_aggregation.Bars.{Bar, Below, combine, merge}
use apm_aggregation.Bars.Snoc.{merge-nil, merge-snoc_left, merge-snoc_right, merge-snoc_both}
use apm_aggregation.Pb.{HdrHistogram}
use apm_aggregation.Merger.Histogram.{fill}
use apm_aggregation.Merger.Histogram.Loop.{
  Ends, nothing, last, ends, copy_rest_lem, fill_stop, fill_copy, Below-mono, merge_all-Below,
}
use apm_aggregation.Merger.Histogram.Rounds.{
  Round, Filled, Slot-at, length-snoc, Filled-both, Filled-to, Filled-from, Round-to, Round-from,
  Round-both, Below-x, Below-f,
}

pub length-le-merge : (xs ys : List Bar) → length xs ≤ length (merge xs ys)
unfolding merge
length-le-merge [] ys = omega arith
length-le-merge (x ∷ xs) [] = omega arith
length-le-merge (x ∷ xs) (y ∷ ys) =
    ground (arith, length-le-merge xs (y ∷ ys), length-le-merge xs ys, length-le-merge (x ∷ xs) ys)

eq-nil {ℓ} : {A : Type ℓ} (xs : List A) → length xs ≡ 0 → xs ≡ []
eq-nil [] h = refl
eq-nil (x ∷ xs) h = absurd (omega arith)

module _ (low : ℕ) (front : List Bar) (from : HdrHistogram) where
  -- The claim for a given number of rounds.
  abbrev Fills : ℕ → Type 0
  Fills k =
      (xs fs rest gap done : List Bar)
      → Round low front from xs fs rest
      → length xs + length gap ≡ k
      → length (merge xs fs) ≡ k
      → Filled (length front) from k xs fs gap done

  module _ (idx : ℕ) (ih : Fills idx) (xs : List Bar) (x : Bar) (fs : List Bar) (f : Bar)
      (rest gap done : List Bar) (r : Round low front from (xs ++ x ∷ []) (fs ++ f ∷ []) rest)
      (ahead : length front ≤ length xs) (room : length (xs ++ x ∷ []) + length gap ≡ suc idx)
      (size : length (merge (xs ++ x ∷ []) (fs ++ f ∷ [])) ≡ suc idx) where
    abbrev Goal : Type 0
    Goal = Filled (length front) from (suc idx) (xs ++ x ∷ []) (fs ++ f ∷ []) gap done

    take_both : x.bucket ≡ f.bucket → Goal
    take_both e =
        let sl = Slot-at xs x gap done (ends (x ∷ gap)) in
        let at : length (xs ++ sl.before) ≡ idx =
          omega (arith, length-append xs sl.before, length-snoc xs x, sl.size) in
        let shape =
          merge-snoc_both xs x fs f e (Below-x low front from xs x fs f rest r ahead) (
            subst (λ (b : ℕ). Below b fs) (sym e)
              (Below-f low front from xs x fs f rest r ahead)) in
        let less : length (merge xs fs) ≡ idx =
          omega (arith, ap length shape, length-snoc (merge xs fs) (combine x f), size) in
        subst (λ (k : ℕ). Filled (length front) from (suc k) (xs ++ x ∷ []) (fs ++ f ∷ []) gap done)
          at
          (Filled-both low front from xs x fs f rest r ahead gap done sl e (
            subst (λ (k : ℕ). Filled (length front) from k xs fs sl.before (combine x f ∷ done))
              (sym at)
              (ih xs fs (f ∷ rest) sl.before (combine x f ∷ done)
                (Round-both low front from xs x fs f rest r ahead)
                (omega (arith, length-append xs sl.before)) less)))

    take_to : f.bucket < x.bucket → Goal
    take_to e =
        let sl = Slot-at xs x gap done (ends (x ∷ gap)) in
        let at : length (xs ++ sl.before) ≡ idx =
          omega (arith, length-append xs sl.before, length-snoc xs x, sl.size) in
        let shape = merge-snoc_left xs x (fs ++ f ∷ []) (
          All-append _ fs (f ∷ [])
            (Below-mono fs (omega arith) (Below-f low front from xs x fs f rest r ahead))
            (e, tt)) in
        let less : length (merge xs (fs ++ f ∷ [])) ≡ idx =
          omega (arith, ap length shape, length-snoc (merge xs (fs ++ f ∷ [])) x, size) in
        subst (λ (k : ℕ). Filled (length front) from (suc k) (xs ++ x ∷ []) (fs ++ f ∷ []) gap done)
          at
          (Filled-to low front from xs x fs f rest r ahead gap done sl e (
            subst (λ (k : ℕ). Filled (length front) from k xs (fs ++ f ∷ []) sl.before (x ∷ done))
              (sym at)
              (ih xs (fs ++ f ∷ []) rest sl.before (x ∷ done)
                (Round-to low front from xs x fs f rest r ahead)
                (omega (arith, length-append xs sl.before)) less)))

    take_from : x.bucket < f.bucket → Ends gap → Goal
    take_from e (nothing none_left) =
        let shape = merge-snoc_right (xs ++ x ∷ []) fs f (
          All-append _ xs (x ∷ [])
            (Below-mono xs (omega arith) (Below-x low front from xs x fs f rest r ahead))
            (e, tt)) in
        absurd (
          omega (
            arith,
            ap length none_left,
            ap length shape,
            length-snoc (merge (xs ++ x ∷ []) fs) f,
            length-le-merge (xs ++ x ∷ []) fs,
          ))
    take_from e (last gs g cut n) =
        let whole : List Bar = xs ++ x ∷ [] in
        let shape = merge-snoc_right whole fs f (
          All-append _ xs (x ∷ [])
            (Below-mono xs (omega arith) (Below-x low front from xs x fs f rest r ahead))
            (e, tt)) in
        let at : length (whole ++ gs) ≡ idx = omega (arith, length-append whole gs) in
        let less : length (merge whole fs) ≡ idx =
          omega (arith, ap length shape, length-snoc (merge whole fs) f, size) in
        rw cut (
          subst
            (λ (k : ℕ). Filled (length front) from (suc k) whole (fs ++ f ∷ []) (gs ++ g ∷ []) done)
            at
            (Filled-from low front from xs x fs f rest r ahead gs g done e (
              subst (λ (k : ℕ). Filled (length front) from k whole fs gs (f ∷ done)) (sym at)
                (ih whole fs (f ∷ rest) gs (f ∷ done)
                  (Round-from low front from xs x fs f rest r ahead)
                  (omega (arith, length-append whole gs)) less))))

    take_one : Goal
    take_one = elim (compare_cases x.bucket f.bucket) [
      | inl before ↦ take_from before (ends gap)
      | inr (inl same) ↦ take_both same
      | inr (inr behind) ↦ take_to behind
    ]

  -- The rest of `from` lies between the front of `to` and what is written.
  copy_one :
      (idx : ℕ) (fs : List Bar) (f : Bar) (rest gap done : List Bar)
      → Round low front from front (fs ++ f ∷ []) rest
      → length front + length gap ≡ suc idx
      → length (merge front (fs ++ f ∷ [])) ≡ suc idx
      → Filled (length front) from (suc idx) front (fs ++ f ∷ []) gap done
  copy_one idx fs f rest gap done r room size =
      let shape = merge_all-Below low front (fs ++ f ∷ []) r.below r.sorted_from in
      let total : length front + length (fs ++ f ∷ []) ≡ suc idx =
        omega (arith, ap length shape, length-append front (fs ++ f ∷ [])) in
      fill_copy (length front) idx from _ (omega (arith, length-snoc fs f)) (omega arith)
      ∙ copy_rest_lem from front gap done (fs ++ f ∷ []) rest _ (suc idx) r.cols (omega arith)
          (omega arith)
      ∙ rw (shape, append_assoc front (fs ++ f ∷ []) done)

  fills_stop :
      (k : ℕ) (xs rest gap done : List Bar)
      → length xs + length gap ≡ k
      → length xs ≡ k
      → Filled (length front) from k xs [] gap done
  fills_stop k xs rest gap done room size =
      fill_stop (length front) k from _ refl ∙ rw (merge-nil xs, eq-nil gap (omega arith))

  Fills-last :
      (idx : ℕ) (xs fs : List Bar) (f : Bar) (rest gap done : List Bar)
      → Fills idx
      → Round low front from xs (fs ++ f ∷ []) rest
      → length xs + length gap ≡ suc idx
      → length (merge xs (fs ++ f ∷ [])) ≡ suc idx
      → (length xs ≤ length front) ⊎ (length front < length xs)
      → Ends xs
      → Filled (length front) from (suc idx) xs (fs ++ f ∷ []) gap done
  Fills-last idx xs fs f rest gap done ih r room size (inl here) view =
      let at_front : xs ≡ front = sym (take_all (length front) xs here) ∙ r.prefix in
      rw at_front (
        copy_one idx fs f rest gap done
          (subst (λ (ys : List Bar). Round low front from ys (fs ++ f ∷ []) rest) at_front r)
          (subst (λ (ys : List Bar). length ys + length gap ≡ suc idx) at_front room)
          (subst (λ (ys : List Bar). length (merge ys (fs ++ f ∷ [])) ≡ suc idx) at_front size))
  Fills-last idx xs fs f rest gap done ih r room size (inr behind) (nothing e) =
      absurd (omega (arith, ap length e))
  Fills-last idx xs fs f rest gap done ih r room size (inr behind) (last ys y e n) = rw e (
      take_one idx ih ys y fs f rest gap done
        (subst (λ (zs : List Bar). Round low front from zs (fs ++ f ∷ []) rest) e r) (omega arith)
        (subst (λ (zs : List Bar). length zs + length gap ≡ suc idx) e room)
        (subst (λ (zs : List Bar). length (merge zs (fs ++ f ∷ [])) ≡ suc idx) e size))

  Fills-Round :
      (idx : ℕ) (xs fs rest gap done : List Bar)
      → Fills idx
      → Round low front from xs fs rest
      → length xs + length gap ≡ suc idx
      → length (merge xs fs) ≡ suc idx
      → Ends fs
      → Filled (length front) from (suc idx) xs fs gap done
  Fills-Round idx xs fs rest gap done ih r room size (nothing e) = rw e (
      fills_stop (suc idx) xs rest gap done room (
        sym (ap length (merge-nil xs))
        ∙ subst (λ (gs : List Bar). length (merge xs gs) ≡ suc idx) e size))
  Fills-Round idx xs fs rest gap done ih r room size (last gs g e n) = rw e (
      Fills-last idx xs gs g rest gap done ih
        (subst (λ (zs : List Bar). Round low front from xs zs rest) e r) room
        (subst (λ (zs : List Bar). length (merge xs zs) ≡ suc idx) e size) (omega arith) (ends xs))

  -- With as many rounds as the merge has bars, the slices end up holding it.
  pub fills : (k : ℕ) → Fills k
  unfolding fill
  fills zero xs fs rest gap done r room size =
      rw (eq-nil (merge xs fs) size, eq-nil xs (omega arith), eq-nil gap (omega arith))
  fills (suc idx) xs fs rest gap done r room size =
      Fills-Round idx xs fs rest gap done (fills idx) r room size (ends fs)
