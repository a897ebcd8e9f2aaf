-- ===== src/Merger/Combined/Invariant.antt =====
-- The invariant of combined metrics under `merge` of aggregators/merger.go, and what a merge moves
-- from the incoming metrics to a service.
use apm_aggregation.Base.{ℕ, ◌+◌, ◌/◌, ◌≤◌, ◌<◌, ◌^◌, ◌≡◌, ◌∙◌, Option, List, [], ◌∷◌, arith}
use apm_aggregation.Base.Lists.{length}
use apm_aggregation.Base.Words.{add64, add64-lt, add64_assoc}
use apm_aggregation.Constraint.{Constraint}
use apm_aggregation.Pb
use apm_aggregation.Models.{ServiceInstanceMetrics, ServiceMetrics, Overflow}
use apm_aggregation.Models.Keys.{Limits}
use apm_aggregation.Merger.Overflow.Totals.{
  IsOverflow, transactions_in, services_in, instance_transactions, instance_services, Gains,
}
use apm_aggregation.Merger.Groups.Counts.{AllGroups, sum_map}
use apm_aggregation.Merger.Groups.Transactions.{IsGroup, group_count, overflow_count}
use apm_aggregation.Merger.Groups.ServiceTransactions.{
  IsServiceGroup, service_count, service_overflow_count,
}
use apm_aggregation.Merger.Groups.Spans.{named}
use apm_aggregation.Merger.Groups.SpanTotal.{IsSpanGroup}
use apm_aggregation.Merger.Combined.{Constraints, Instances}
use apm_aggregation.Merger.Combined.Found.{size_map}

-- The three kinds of groups.
pub data Kind : Type 0 where
  transactions : Kind
  services : Kind
  spans : Kind

pub by_kind : (P : Kind → Type 0) → P transactions → P services → P spans → (k : Kind) → P k
by_kind P a b c transactions = a
by_kind P a b c services = b
by_kind P a b c spans = c

abbrev pub size_of : {F : Type 0} → Kind → ServiceInstanceMetrics F → ℕ
size_of transactions sim = length sim.transaction_groups
size_of services sim = length sim.service_transaction_groups
size_of spans sim = length sim.span_groups

abbrev pub constraint_of : Kind → Constraints → Constraint
constraint_of transactions c = c.total_transaction_groups
constraint_of services c = c.total_service_transaction_groups
constraint_of spans c = c.total_span_groups

abbrev pub total_limit : Kind → Limits → ℕ
total_limit transactions l = l.max_transaction_groups
total_limit services l = l.max_service_transaction_groups
total_limit spans l = l.max_span_groups

abbrev pub per_service_limit : Kind → Limits → ℕ
per_service_limit transactions l = l.max_transaction_groups_per_service
per_service_limit services l = l.max_service_transaction_groups_per_service
per_service_limit spans l = l.max_span_groups_per_service

-- The counts in histogram bucket `q`. Spans have no histogram.
abbrev pub count_of : {F : Type 0} → Kind → ℕ → ServiceInstanceMetrics F → ℕ
count_of transactions q sim = sum_map (group_count q) sim.transaction_groups
count_of services q sim = sum_map (service_count q) sim.service_transaction_groups
count_of spans q sim = 0

abbrev pub lost_of : {F S : Type 0} → Kind → ℕ → Overflow F S → ℕ
lost_of transactions q o = overflow_count q o.overflow_transaction
lost_of services q o = service_overflow_count q o.overflow_service_transaction
lost_of spans q o = 0

abbrev pub incoming_of : {F : Type 0} → Kind → ℕ → Option (Pb.ServiceInstanceMetrics F) → ℕ
incoming_of transactions q m = instance_transactions q m
incoming_of services q m = instance_services q m
incoming_of spans q m = 0

abbrev pub overflowing_of : {F : Type 0} → Kind → ℕ → Option (Pb.Overflow F) → ℕ
overflowing_of transactions q o = transactions_in q o
overflowing_of services q o = services_in q o
overflowing_of spans q o = 0

-- A service instance within its limits. The limits that are named after the service bound each of
-- its instances.
pub record IsInstance {F : Type 0} (l : Limits) (sim : ServiceInstanceMetrics F) : Type 0 where
  pub all_transactions : AllGroups IsGroup sim.transaction_groups
  pub all_services : AllGroups IsServiceGroup sim.service_transaction_groups
  pub all_spans : AllGroups IsSpanGroup sim.span_groups
  pub within : (k : Kind) → size_of k sim ≤ per_service_limit k l
  pub names : named sim.span_groups ≤ l.max_span_groups_per_service / 2

pub record IsService {F S : Type 0} (l : Limits) (sm : ServiceMetrics F S) : Type 0 where
  pub instances : AllGroups (IsInstance l) sm.service_instance_groups
  pub room : length sm.service_instance_groups ≤ l.max_service_instance_groups_per_service
  pub overflow : IsOverflow sm.overflow_groups

-- The shared constraints have the limits, and keep to them.
pub record IsConstrained (l : Limits) (c : Constraints) : Type 0 where
  pub limit : (k : Kind) → (constraint_of k c).limit ≡ total_limit k l
  pub within : (k : Kind) → (constraint_of k c).counter ≤ total_limit k l

-- The groups of a service, and its counts with those of its overflow.
abbrev pub service_size : {F S : Type 0} → Kind → ServiceMetrics F S → ℕ
service_size k sm = size_map (size_of k) sm.service_instance_groups

abbrev pub count_in : {F S : Type 0} → Kind → ℕ → ServiceMetrics F S → ℕ
count_in k q sm =
    add64 (sum_map (count_of k q) sm.service_instance_groups) (lost_of k q sm.overflow_groups)

-- From `st` to `st'` the service took in the counts `x`, and the constraints what groups are new.
pub record Moves {F S : Type 0} (l : Limits) (st : Instances F S) (x : Kind → ℕ → ℕ)
    (st' : Instances F S) : Type 0 where
  pub service : IsService l st'.to
  pub constrained : IsConstrained l st'.constraints
  pub counts : (k : Kind) (q : ℕ) → count_in k q st'.to ≡ add64 (count_in k q st.to) (x k q)
  pub sizes :
      (k : Kind)
      → (constraint_of k st'.constraints).counter + service_size k st.to
        ≡ (constraint_of k st.constraints).counter + service_size k st'.to

pub Moves-trans :
    {F S : Type 0} {l : Limits} {a b c : Instances F S} {x y : Kind → ℕ → ℕ}
    → Moves l a x b
    → Moves l b y c
    → Moves l a (λ k q. add64 (x k q) (y k q)) c
Moves-trans p r = record {
  service = r.service;
  constrained = r.constrained;
  counts = λ k q. r.counts k q ∙ rw (p.counts k q) (add64_assoc _ _ _);
  sizes = λ k. omega (arith, p.sizes k, r.sizes k);
}

module _ {K V : Type 0} (amount : V → ℕ) where
  sum_map-lt : (m : List (K × V)) → sum_map amount m < 2 ^ 64
  unfolding sum_map
  sum_map-lt [] = omega arith
  sum_map-lt ((k, v) ∷ m) = add64-lt (amount v) (sum_map amount m)

pub count_of-lt :
    {F : Type 0} (k : Kind) (q : ℕ) (sim : ServiceInstanceMetrics F) → count_of k q sim < 2 ^ 64
count_of-lt transactions q sim = sum_map-lt (group_count q) sim.transaction_groups
count_of-lt services q sim = sum_map-lt (service_count q) sim.service_transaction_groups
count_of-lt spans q sim = omega arith

-- What an overflow gains, by kind.
pub Gains-lost_of :
    {F S : Type 0} {o o' : Overflow F S} {t s : ℕ → ℕ} (k : Kind) (q : ℕ) (x : Kind → ℕ → ℕ)
    → Gains o t s o'
    → x transactions q ≡ t q
    → x services q ≡ s q
    → x spans q ≡ 0
    → lost_of k q o' ≡ add64 (lost_of k q o) (x k q)
unfolding add64
Gains-lost_of transactions q x g a b c = rw a (g.transactions q)
Gains-lost_of services q x g a b c = rw b (g.services q)
Gains-lost_of spans q x g a b c = omega (arith, c)
