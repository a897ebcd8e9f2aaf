-- ===== src/Timestamps.antt =====
-- The timestamps of aggregators/internal/timestamppb/timestamp.go: nanoseconds since 1970 as a uint64,
-- the int64 of `UnixNano`. A time is the nanoseconds since Go's zero time.
use apm_aggregation.Base.{ℕ, ◌+◌, ◌-◌, ◌*◌, ◌%◌, ◌^◌, ◌≤◌, ◌<◌, ◌≡◌, arith}

-- The nanoseconds from Go's zero time to 1970, and a multiple of 2 ^ 64 above them.
abbrev pub unix_start : ℕ
unix_start = 62135596800 * 1000000000

unfoldable pub time_to_pb_timestamp : ℕ → ℕ
time_to_pb_timestamp t = (t + (4 * 2 ^ 64 - unix_start)) % 2 ^ 64

-- `time.Unix(0, int64(timestamp))`; a negative int64 is a time before 1970.
unfoldable pub pb_timestamp_to_time : ℕ → ℕ
pb_timestamp_to_time ts = (ts + 2 ^ 63) % 2 ^ 64 + (unix_start - 2 ^ 63)

-- A time that `UnixNano` can represent, from 1677 to 2262, is read back.
pub pb_timestamp_to_time-time_to_pb_timestamp :
    (t : ℕ)
    → unix_start - 2 ^ 63 ≤ t
    → t < unix_start + 2 ^ 63
    → pb_timestamp_to_time (time_to_pb_timestamp t) ≡ t
unfolding pb_timestamp_to_time time_to_pb_timestamp
pb_timestamp_to_time-time_to_pb_timestamp t h k = omega (arith, h, k)
