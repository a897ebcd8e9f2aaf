-- ===== src/Codec/RoundTrip.antt =====
-- The round trips of the five aggregation keys through protobuf, aggregators/codec.go.
use apm_aggregation.Base.{ℕ, ◌+◌, ◌-◌, ◌^◌, ◌≤◌, ◌<◌, ◌≡◌, refl, ap, ◌↔◌, arith}
use apm_aggregation.Models.Keys.{ServiceAggregationKey}
use apm_aggregation.Pb
use apm_aggregation.Timestamps.{unix_start, time_to_pb_timestamp, pb_timestamp_to_time}
use apm_aggregation.Codec.Keys.{
  service_key_to_proto, service_key_from_proto, service_instance_key_to_proto,
  service_instance_key_from_proto, transaction_key_to_proto, transaction_key_from_proto,
  service_transaction_key_to_proto, service_transaction_key_from_proto, span_key_to_proto,
  span_key_from_proto,
}

-- Two conversions are inverse to each other.
abbrev AreInverse : {A B : Type 0} → (A → B) → (B → A) → Type 0
AreInverse {A} {B} f g = ((a : A) → g (f a) ≡ a) × ((b : B) → f (g b) ≡ b)

-- A time that `UnixNano` can represent, from 1677 to 2262.
abbrev pub IsRepresentable : ℕ → Type 0
IsRepresentable t = (unix_start - 2 ^ 63 ≤ t) × (t < unix_start + 2 ^ 63)

time_iff : (t : ℕ) → (pb_timestamp_to_time (time_to_pb_timestamp t) ≡ t) ↔ IsRepresentable t
unfolding pb_timestamp_to_time time_to_pb_timestamp
time_iff t = (λ h. (omega (arith, h), omega (arith, h)), λ h. omega (arith, h.0, h.1))

timestamp_iff : (s : ℕ) → (time_to_pb_timestamp (pb_timestamp_to_time s) ≡ s) ↔ (s < 2 ^ 64)
unfolding pb_timestamp_to_time time_to_pb_timestamp
timestamp_iff s = (λ h. omega (arith, h), λ h. omega (arith, h))

service_key_iff :
    (k : ServiceAggregationKey)
    → (service_key_from_proto (service_key_to_proto k) ≡ k) ↔ IsRepresentable k.timestamp
unfolding service_key_to_proto service_key_from_proto
service_key_iff k = (
  λ h. (time_iff k.timestamp).0 (ap (λ (c : ServiceAggregationKey). c.timestamp) h),
  λ h i. record k { timestamp = (time_iff k.timestamp).1 h i },
)

pb_service_key_iff :
    (k : Pb.ServiceAggregationKey)
    → (service_key_to_proto (service_key_from_proto k) ≡ k) ↔ (k.timestamp < 2 ^ 64)
unfolding service_key_to_proto service_key_from_proto
pb_service_key_iff k = (
  λ h. (timestamp_iff k.timestamp).0 (ap (λ (c : Pb.ServiceAggregationKey). c.timestamp) h),
  λ h i. record k { timestamp = (timestamp_iff k.timestamp).1 h i },
)

-- A service key comes back from protobuf unchanged exactly when its time lies between 1677 and 2262,
-- where `UnixNano` is defined, and a service key of protobuf exactly when its timestamp is a uint64.
-- The conversions of the other four aggregation keys are inverse to each other.
pub keys-survive :
    ((k : ServiceAggregationKey)
      → (service_key_from_proto (service_key_to_proto k) ≡ k) ↔ IsRepresentable k.timestamp)
    × ((k : Pb.ServiceAggregationKey)
        → (service_key_to_proto (service_key_from_proto k) ≡ k) ↔ (k.timestamp < 2 ^ 64))
    × AreInverse service_instance_key_to_proto service_instance_key_from_proto
    × AreInverse transaction_key_to_proto transaction_key_from_proto
    × AreInverse service_transaction_key_to_proto service_transaction_key_from_proto
    × AreInverse span_key_to_proto span_key_from_proto
unfolding service_instance_key_to_proto service_instance_key_from_proto transaction_key_to_proto
    transaction_key_from_proto service_transaction_key_to_proto service_transaction_key_from_proto
    span_key_to_proto span_key_from_proto
keys-survive = (
  service_key_iff,
  pb_service_key_iff,
  (λ a. refl, λ b. refl),
  (λ a. refl, λ b. refl),
  (λ a. refl, λ b. refl),
  (λ a. refl, λ b. refl),
)
