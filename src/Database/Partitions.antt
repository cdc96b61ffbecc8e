-- ===== src/Database/Partitions.antt =====
-- src/database/partitions/partition-plan.ts. Times are counted from the start of the year -400, as in
-- Domain/Timestamp, which is a whole number of days before the source's zero.
pub mod Planned
pub mod Preparer
pub mod Statements
pub mod Prepared
pub mod Refined
pub mod Works
pub mod Locked
mod Tests
use log_stream.Base.{
  ℕ, zero, suc, ◌+◌, ◌-◌, ◌*◌, ◌/◌, Bool, true, false, not, ◌&&◌, ◌||◌, List, [], ◌∷◌, ◌++◌, Option,
  none, some, ltb, leb, ◌==◌, if◌then◌else◌, length, take, drop, keep_if,
}
use log_stream.Base.Maybe.{◌>>=◌}
use log_stream.Base.Number.{Number, is_safe_integer, is_negative, natural}
use log_stream.Base.Text.{Text, text_eq, units}
use log_stream.Domain.Timestamp.{date_parse}
use log_stream.Domain.Timestamp.Print.{to_iso_string}
use log_stream.Domain.Timestamp.Scan.{DateTime, match_canonical}
use log_stream.Query.Parameters.{all_digits}

abbrev pub milliseconds_per_day : ℕ
milliseconds_per_day = 86400000

pub record DailyPartition : Type 0 where
  pub name : Text
  pub start : Text
  pub end : Text

-- `PARTITION_NAME_PATTERN`.
unfoldable pub is_partition_name : Text → Bool
is_partition_name name =
    text_eq (take 5 name) (units "logs_") && length name == 13 && all_digits (drop 5 name)

abbrev midnight : DateTime × Text → Option DateTime
midnight (f, fraction) =
    if f.hour == 0 && f.minute == 0 && f.second == 0 && text_eq fraction (units "000")
    then some f
    else none

abbrev printed_back : Text → ℕ → Option ℕ
printed_back value timestamp =
    if text_eq (to_iso_string timestamp) value then some timestamp else none

-- `assertUtcBoundary`, with the time that it parses; `none` is an InvalidPartitionPlanError.
unfoldable pub assert_utc_boundary : Text → Option ℕ
assert_utc_boundary value = do
  match ← match_canonical value
  fields ← midnight match
  timestamp ← date_parse fields 0
  printed_back value timestamp

unfoldable pub expected_name : Text → Text
expected_name start = units "logs_" ++ keep_if (λ c. not (c == b'-')) (take 10 start)

abbrev is_day : DailyPartition → (start end : ℕ) → Option DailyPartition
is_day partition start end =
    if text_eq partition.name (expected_name partition.start) && end == start + milliseconds_per_day
    then some partition
    else none

-- The partition, where it is accepted.
unfoldable pub assert_daily_partition : DailyPartition → Option DailyPartition
assert_daily_partition partition = if not (is_partition_name partition.name) then none else do
  start ← assert_utc_boundary partition.start
  end ← assert_utc_boundary partition.end
  is_day partition start end

abbrev pub partition_at : ℕ → DailyPartition
partition_at timestamp = record {
  name = expected_name (to_iso_string timestamp);
  start = to_iso_string timestamp;
  end = to_iso_string (timestamp + milliseconds_per_day);
}

unfoldable pub partition_for_timestamp : ℕ → Option DailyPartition
partition_for_timestamp timestamp = assert_daily_partition (partition_at timestamp)

-- The loop over the offsets, with the number of rounds left.
unfoldable pub partitions_from : (first_day offset left : ℕ) → Option (List DailyPartition)
partitions_from first_day offset zero = some []
partitions_from first_day offset (suc left) = do
  partition ← partition_for_timestamp (first_day + offset * milliseconds_per_day)
  later ← partitions_from first_day (offset + 1) left
  some (partition ∷ later)

unfoldable pub is_retention_days : Number → Bool
is_retention_days n =
    is_safe_integer n
    && not (is_negative n)
    && not (ltb (natural n) 1)
    && not (ltb 3650 (natural n))

abbrev pub plan_at : ℕ → ℕ → Option (List DailyPartition)
plan_at timestamp days =
    let current_utc_day = timestamp / milliseconds_per_day * milliseconds_per_day in
    partitions_from (current_utc_day - days * milliseconds_per_day) 0 (days + 3)

-- The time is `none` where it is not finite.
unfoldable pub build_partition_plan : Option ℕ → Number → Option (List DailyPartition)
build_partition_plan none retention_days = none
build_partition_plan (some timestamp) retention_days =
    if not (is_retention_days retention_days)
    then none
    else plan_at timestamp (natural retention_days)
