-- ===== src/Merger/Combined/InstanceStep.antt =====
-- The merge of one service instance, in `mergeServiceInstanceGroups` of aggregators/merger.go.
use apm_aggregation.Base.{ℕ, ◌+◌, ◌≡◌, refl, ◌∙◌, Option, none, some, arith}
use apm_aggregation.Base.Lists.{length}
use apm_aggregation.Base.Words.{add64}
use apm_aggregation.Base.Assoc.{insert}
use apm_aggregation.Constraint.{new}
use apm_aggregation.Pb
use apm_aggregation.Models.{ServiceInstanceMetrics, ServiceMetrics, Overflow}
use apm_aggregation.Models.Env.{Env}
use apm_aggregation.Models.Keys.{
  Limits, ServiceInstanceAggregationKey, ServiceInstanceAggregationKey-discrete,
}
use apm_aggregation.Merger.Overflow.Totals.{IsOverflow, IsInstanceIn}
use apm_aggregation.Merger.Groups.{TransactionGroups, ServiceTransactionGroups, SpanGroups}
use apm_aggregation.Merger.Groups.Counts.{sum_map, insert-AllGroups}
use apm_aggregation.Merger.Groups.Transactions.{merge_transaction_groups-Accounts}
use apm_aggregation.Merger.Groups.ServiceTransactions.{merge_service_transaction_groups-Accounts}
use apm_aggregation.Merger.Groups.Spans.{named}
use apm_aggregation.Merger.Groups.SpanTotal.{merge_span_groups-Keeps}
use apm_aggregation.Merger.Combined.{Instances, merge_instance, new_service_instance_metrics}
use apm_aggregation.Merger.Combined.Found.{
  Found, Found-AllGroups, length-Found, size_map-Found, sum_map-Found, balance,
}
use apm_aggregation.Merger.Combined.Invariant.{
  Kind, transactions, services, spans, size_of, count_of, lost_of, incoming_of, IsInstance,
  IsService, IsConstrained, count_in, service_size, Moves, count_of-lt, by_kind,
}

fresh_count :
    (F : Type 0) (k : Kind) (q : ℕ) → count_of {F = F} k q new_service_instance_metrics ≡ 0
unfolding sum_map
fresh_count F transactions q = refl
fresh_count F services q = refl
fresh_count F spans q = refl

no_spans : add64 0 0 ≡ add64 (add64 0 0) 0
unfolding add64
no_spans = refl

fresh_size : (F : Type 0) (k : Kind) → size_of {F = F} k new_service_instance_metrics ≡ 0
fresh_size F transactions = refl
fresh_size F services = refl
fresh_size F spans = refl

fresh-IsInstance : {F : Type 0} (l : Limits) → IsInstance {F = F} l new_service_instance_metrics
unfolding named
fresh-IsInstance {F} l = record {
  all_transactions = tt;
  all_services = tt;
  all_spans = tt;
  within = λ k. omega (arith, fresh_size F k);
  names = omega arith;
}

module _ {F S : Type 0} (l : Limits) (sm : ServiceMetrics F S) (sik : ServiceInstanceAggregationKey)
    (sim : ServiceInstanceMetrics F)
    (found : Found ServiceInstanceAggregationKey-discrete sm.service_instance_groups
      l.max_service_instance_groups_per_service new_service_instance_metrics sik sim) where
  -- The service with the instance written back.
  abbrev written : ServiceInstanceMetrics F → Overflow F S → ServiceMetrics F S
  written sim' o = record {
    service_instance_groups =
        insert ServiceInstanceAggregationKey-discrete sik sim' sm.service_instance_groups;
    overflow_groups = o;
  }

  written_counts :
      (sim' : ServiceInstanceMetrics F) (o : Overflow F S) (k : Kind) (q x : ℕ)
      → add64 (count_of k q sim') (lost_of k q o)
        ≡ add64 (add64 (count_of k q sim) (lost_of k q sm.overflow_groups)) x
      → count_in k q (written sim' o) ≡ add64 (count_in k q sm) x
  written_counts sim' o k q x h =
      rw
        (sum_map-Found ServiceInstanceAggregationKey-discrete sm.service_instance_groups
          l.max_service_instance_groups_per_service new_service_instance_metrics sik sim
          (count_of k q) sim' (count_of-lt k q) (fresh_count F k q) found)
        (balance _ (count_of k q sim) (count_of k q sim') (lost_of k q sm.overflow_groups)
          (lost_of k q o) x h)

  written_sizes :
      (sim' : ServiceInstanceMetrics F) (o : Overflow F S) (k : Kind)
      → service_size k (written sim' o) + size_of k sim ≡ service_size k sm + size_of k sim'
  written_sizes sim' o k =
      size_map-Found ServiceInstanceAggregationKey-discrete sm.service_instance_groups
        l.max_service_instance_groups_per_service new_service_instance_metrics sik sim (size_of k)
        sim' (fresh_size F k) found

  written-IsService :
      (sim' : ServiceInstanceMetrics F) (o : Overflow F S)
      → IsService l sm
      → IsInstance l sim'
      → IsOverflow o
      → IsService l (written sim' o)
  written-IsService sim' o s i w = record {
    instances =
        insert-AllGroups ServiceInstanceAggregationKey-discrete (IsInstance l) sik sim'
          sm.service_instance_groups i s.instances;
    room =
        length-Found ServiceInstanceAggregationKey-discrete sm.service_instance_groups
          l.max_service_instance_groups_per_service new_service_instance_metrics sik sim sim' s.room
          found;
    overflow = w;
  }

module _ {F S D : Type 0} (env : Env F S D) (sb sc : ℕ → ℕ) (l : Limits) (hash : D) where
  -- The merge of an instance that is found, or is new, moves its counts.
  pub merge_instance-Moves :
      (st : Instances F S) (sik : ServiceInstanceAggregationKey) (sim : ServiceInstanceMetrics F)
      (from : Option (Pb.ServiceInstanceMetrics F))
      → IsService l st.to
      → IsConstrained l st.constraints
      → Found ServiceInstanceAggregationKey-discrete st.to.service_instance_groups
          l.max_service_instance_groups_per_service new_service_instance_metrics sik sim
      → IsInstanceIn from
      → (st' : Instances F S) × (merge_instance env sb sc l hash st sik sim from ≡ some st')
        × Moves l st (λ k q. incoming_of k q from) st'
  unfolding merge_instance
  merge_instance-Moves st sik sim none s c found p = absurd p
  merge_instance-Moves st sik sim (some from) s c found p =
      let i =
        Found-AllGroups ServiceInstanceAggregationKey-discrete st.to.service_instance_groups
          l.max_service_instance_groups_per_service new_service_instance_metrics sik sim
          (IsInstance l) (fresh-IsInstance l) s.instances found in
      let over = st.to.overflow_groups in
      let gt : TransactionGroups env sb sc hash = record {
        to = sim.transaction_groups;
        per_svc = new (length sim.transaction_groups) l.max_transaction_groups_per_service;
        global = st.constraints.total_transaction_groups;
        overflow = over.overflow_transaction;
      } in
      let gs : ServiceTransactionGroups env sb sc hash = record {
        to = sim.service_transaction_groups;
        per_svc =
            new (length sim.service_transaction_groups)
              l.max_service_transaction_groups_per_service;
        global = st.constraints.total_service_transaction_groups;
        overflow = over.overflow_service_transaction;
      } in
      let gp : SpanGroups env hash = record {
        to = sim.span_groups;
        per_svc = new (length sim.span_groups) l.max_span_groups_per_service;
        global = st.constraints.total_span_groups;
        overflow = over.overflow_span;
      } in
      let (t, run_t, ct, at) =
        merge_transaction_groups-Accounts env sb sc hash gt from.transaction_metrics refl
          i.all_transactions s.overflow.transactions p.0 in
      let (u, run_u, cu, au) =
        merge_service_transaction_groups-Accounts env sb sc hash gs from.service_transaction_metrics
          refl i.all_services s.overflow.services p.1 in
      let (v, run_v, cv, av, nv) =
        merge_span_groups-Keeps env hash gp from.span_metrics refl i.all_spans p.2 in
      let sim' : ServiceInstanceMetrics F = record {
        transaction_groups = t.to;
        service_transaction_groups = u.to;
        span_groups = v.to;
      } in
      let o : Overflow F S = record {
        overflow_transaction = t.overflow;
        overflow_service_transaction = u.overflow;
        overflow_span = v.overflow;
      } in
      (
        record {
          to = written l st.to sik sim found sim' o;
          constraints = record {
            total_transaction_groups = t.global;
            total_service_transaction_groups = u.global;
            total_span_groups = v.global;
          };
          estimator = st.estimator;
        },
        rw run_t (rw run_u (rw run_v refl)),
        record {
          service =
              written-IsService l st.to sik sim found sim' o s
                (record {
                  all_transactions = (at 0).groups;
                  all_services = (au 0).groups;
                  all_spans = av;
                  within =
                      by_kind _ (omega (arith, ct.per_svc_bound, i.within transactions))
                        (omega (arith, cu.per_svc_bound, i.within services))
                        (omega (arith, cv.per_svc_bound, i.within spans));
                  names = omega (arith, nv.names, i.names);
                })
                (record { transactions = (at 0).bucket; services = (au 0).bucket });
          constrained = record {
            limit =
                by_kind _ (ct.global_limit ∙ c.limit transactions)
                  (cu.global_limit ∙ c.limit services) (cv.global_limit ∙ c.limit spans);
            within =
                by_kind _
                  (omega (arith, ct.global_bound, c.limit transactions, c.within transactions))
                  (omega (arith, cu.global_bound, c.limit services, c.within services))
                  (omega (arith, cv.global_bound, c.limit spans, c.within spans));
          };
          counts =
              by_kind _
                (λ q. written_counts l st.to sik sim found sim' o transactions q _ (at q).amounts)
                (λ q. written_counts l st.to sik sim found sim' o services q _ (au q).amounts)
                (λ q. written_counts l st.to sik sim found sim' o spans q 0 no_spans);
          sizes =
              by_kind _
                (omega (arith, ct.charged, written_sizes l st.to sik sim found sim' o transactions))
                (omega (arith, cu.charged, written_sizes l st.to sik sim found sim' o services))
                (omega (arith, cv.charged, written_sizes l st.to sik sim found sim' o spans));
        },
      )
