-- ===== src/Merger/Combined/InstanceLoop.antt =====
-- `mergeServiceInstanceGroups` of aggregators/merger.go: the loop over incoming service instances.
use apm_aggregation.Base.{ℕ, ◌≡◌, refl, sym, inl, inr, Option, some, List, [], ◌∷◌}
use apm_aggregation.Base.Lists.{All}
use apm_aggregation.Base.Words.{add64, add64-zero, add64-lt, add64_assoc}
use apm_aggregation.Pb
use apm_aggregation.Models.{Overflow}
use apm_aggregation.Models.Env.{Env}
use apm_aggregation.Models.Keys.{Limits, ServiceInstanceAggregationKey-discrete}
use apm_aggregation.Codec.Keys.{service_instance_key_from_proto}
use apm_aggregation.Hash.{hash_service_instance_key}
use apm_aggregation.Merger.Overflow.{insert_hash}
use apm_aggregation.Merger.Overflow.Totals.{IsInstanceIn, Gains, merge_to_overflow_from_sim-Gains}
use apm_aggregation.Merger.Groups.Counts.{sum_map}
use apm_aggregation.Merger.Combined.{
  Instances, instance_at, get_service_instance_metrics, merge_service_instance_groups,
  new_service_instance_metrics,
}
use apm_aggregation.Merger.Combined.Found.{found_or_new_cases}
use apm_aggregation.Merger.Combined.InstanceStep.{merge_instance-Moves}
use apm_aggregation.Merger.Combined.Invariant.{
  Kind, transactions, services, spans, lost_of, count_of, incoming_of, IsService, IsConstrained,
  count_in, Moves, Moves-trans, Gains-lost_of,
}

-- The incoming instances and what they count.
abbrev pub AllInstancesIn : {F : Type 0} → List (Pb.KeyedServiceInstanceMetrics F) → Type 0
AllInstancesIn = All (λ v. IsInstanceIn v.metrics)

unfoldable pub instances_count :
    {F : Type 0} → Kind → ℕ → List (Pb.KeyedServiceInstanceMetrics F) → ℕ
instances_count k q [] = 0
instances_count k q (v ∷ vs) = add64 (incoming_of k q v.metrics) (instances_count k q vs)

module _ {F S D : Type 0} (env : Env F S D) (sb sc : ℕ → ℕ) (l : Limits) (hash : D) where
  -- A service that only its overflow changes.
  pub overflowed-Moves :
      (st : Instances F S) (o : Overflow F S) (e : Option S) (t u : ℕ → ℕ) (x : Kind → ℕ → ℕ)
      → IsService l st.to
      → IsConstrained l st.constraints
      → Gains st.to.overflow_groups t u o
      → ((q : ℕ) → x transactions q ≡ t q)
      → ((q : ℕ) → x services q ≡ u q)
      → ((q : ℕ) → x spans q ≡ 0)
      → Moves l st x (record st { to = record (st.to) { overflow_groups = o }; estimator = e })
  overflowed-Moves st o e t u x s c g xt xu xp = record {
    service = record { instances = s.instances; room = s.room; overflow = g.well_formed };
    constrained = c;
    counts = λ k q. rw (Gains-lost_of k q x g (xt q) (xu q) (xp q)) (
        sym (
          add64_assoc (sum_map (count_of k q) st.to.service_instance_groups)
            (lost_of k q st.to.overflow_groups) (x k q)));
    sizes = λ k. refl;
  }

  step :
      (st : Instances F S) (from : Pb.KeyedServiceInstanceMetrics F)
      → IsService l st.to
      → IsConstrained l st.constraints
      → IsInstanceIn from.metrics
      → (st' : Instances F S) × (instance_at env sb sc
            (get_service_instance_metrics st.to
              (service_instance_key_from_proto from.key)
              l.max_service_instance_groups_per_service)
            l
            hash
            st
            from
          ≡ some st')
        × Moves l st (λ k q. incoming_of k q from.metrics) st'
  unfolding instance_at get_service_instance_metrics
  step st from s c p =
      elim (found_or_new_cases ServiceInstanceAggregationKey-discrete st.to.service_instance_groups
        l.max_service_instance_groups_per_service new_service_instance_metrics
        (service_instance_key_from_proto from.key)) [
          | inl full ↦
              let sik_hash = hash_service_instance_key env hash from.key in
              let (o, run, g) =
                merge_to_overflow_from_sim-Gains env sb sc sik_hash st.to.overflow_groups from
                  s.overflow p in
              (
                record st {
                  to = record (st.to) { overflow_groups = o };
                  estimator = insert_hash env st.estimator (env.sum64 sik_hash);
                },
                rw (full, instance_at) (rw run refl),
                overflowed-Moves st o _ _ _ (λ k q. incoming_of k q from.metrics) s c g (λ q. refl)
                    (λ q. refl) (λ q. refl),
              )
          | inr (sim, e, found) ↦
              let (st', run, m) =
                merge_instance-Moves env sb sc l hash st (service_instance_key_from_proto from.key)
                  sim from.metrics s c found p in
              (st', rw (e, instance_at) run, m)
        ]

  Moves-none :
      (st : Instances F S)
      → IsService l st.to
      → IsConstrained l st.constraints
      → Moves l st (λ k q. 0) st
  Moves-none st s c = record {
    service = s;
    constrained = c;
    counts = λ k q. sym (add64-zero (count_in k q st.to) (add64-lt _ _));
    sizes = λ k. refl;
  }

  -- The loop returns and moves the counts of all incoming instances.
  pub merge_service_instance_groups-Moves :
      (st : Instances F S) (from : List (Pb.KeyedServiceInstanceMetrics F))
      → IsService l st.to
      → IsConstrained l st.constraints
      → AllInstancesIn from
      → (st' : Instances F S) × (merge_service_instance_groups env sb sc l hash st from ≡ some st')
        × Moves l st (λ k q. instances_count k q from) st'
  unfolding merge_service_instance_groups instances_count
  merge_service_instance_groups-Moves st [] s c p = (st, refl, Moves-none st s c)
  merge_service_instance_groups-Moves st (v ∷ vs) s c p =
      let (mid, one, m) = step st v s c p.0 in
      let (end, run, n) = merge_service_instance_groups-Moves mid vs m.service m.constrained p.1 in
      (end, rw one run, Moves-trans m n)
