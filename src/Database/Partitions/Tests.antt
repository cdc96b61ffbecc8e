-- ===== src/Database/Partitions/Tests.antt =====
-- src/database/partitions: plans and preparations at concrete inputs.
use Prim.Native.String.{String}
use log_stream.Base.{
  ℕ, ◌+◌, ◌-◌, ◌*◌, ◌/◌, ◌≤◌, ◌≡◌, refl, true, List, [], ◌∷◌, Option, none, some, length,
}
use log_stream.Base.Int.{pos}
use log_stream.Base.Number.{int}
use log_stream.Base.Text.{Text, units, text_lt}
use log_stream.Domain.Calendar.{
  make_day, civil_from_day, year_from_day, year_search, month_search, day_from_year, days_in_month,
  is_leap_year, days_before_month,
}
use log_stream.Domain.Json.{Json, no_members, member, get_own}
use log_stream.Domain.Timestamp.{date_parse, is_date}
use log_stream.Domain.Timestamp.Scan.{
  match_canonical, scan_date_time, scan_milliseconds, four_then, two_then, four_digits, two_digits,
  expect,
}
use log_stream.Query.Parameters.{all_digits}
use log_stream.Domain.Timestamp.Print.{to_iso_string, iso_year, local_time}
use log_stream.Query.Sorting.{sort, place}
use log_stream.Database.Session.{
  SqlQuery, try_lock, unlock, read_partitions, has_overlap, World, returned,
}
use log_stream.Database.Ledger.{ledger, idle, seen}
use log_stream.Database.Partitions.{
  DailyPartition, milliseconds_per_day, build_partition_plan, assert_daily_partition, expected_name,
  is_retention_days, partitions_from, partition_for_timestamp, is_partition_name,
  assert_utc_boundary,
}
use log_stream.Database.Partitions.Planned.{each_day, build_partition_plan-each_day}
use log_stream.Database.Partitions.Preparer.{
  prepare_partitions, check_partitions, prepare_missing, existing_partitions, read_partition_name,
  prepare_each, prepare_partition, is_preparation_failure,
}
use log_stream.Database.Lock.{acquire_lock, is_lock_result, release_lock}
use log_stream.Database.Partitions.Refined.{Prepared, prepare_partitions-Prepared}

-- Noon of 2 March 2024.
abbrev noon : ℕ
noon = make_day 2424 3 2 * 86400000 + 43200000

abbrev first_of_march : Text
first_of_march = units "2024-03-01T00:00:00.000Z"

abbrev plan : Option (List DailyPartition)
plan = build_partition_plan (some noon) (int (pos 1))

iso : to_iso_string (make_day 2424 3 1 * 86400000) ≡ first_of_march
unfolding to_iso_string make_day day_from_year days_before_month days_in_month is_leap_year
    civil_from_day year_from_day year_search month_search iso_year
iso = refl

abbrev planned : List DailyPartition
planned = each_day (noon / milliseconds_per_day - 1) 4

plan-planned : build_partition_plan (some noon) (int (pos 1)) ≡ some planned
unfolding build_partition_plan is_retention_days partitions_from partition_for_timestamp
    assert_daily_partition is_partition_name assert_utc_boundary expected_name match_canonical
    scan_date_time scan_milliseconds four_then two_then four_digits two_digits expect all_digits
    date_parse is_date local_time to_iso_string make_day day_from_year days_before_month
    days_in_month is_leap_year civil_from_day year_from_day year_search month_search iso_year
plan-planned = refl

build_partition_plan-each_day_example :
    (planned ≡ each_day (noon / milliseconds_per_day - 1) 4) × (1 ≤ 1) × (1 ≤ 3650)
build_partition_plan-each_day_example =
    build_partition_plan-each_day noon (int (pos 1)) planned plan-planned

too_long : build_partition_plan (some noon) (int (pos 3651)) ≡ none
unfolding build_partition_plan is_retention_days
too_long = refl

abbrev one_row : String → Json → List Json
one_row key value = Json.object (member (units key) value no_members) ∷ []

-- The database has the partition of 3 March, and rows for the others.
abbrev database : SqlQuery → List Json
database (try_lock id) = one_row "acquired" (Json.boolean true)
database (unlock id) = one_row "released" (Json.boolean true)
database read_partitions = one_row "name" (Json.string (units "logs_20240303"))
database (has_overlap name start end) = one_row "has_overlap" (Json.boolean true)
database _ = []

abbrev world : World
world = record { now = length; sleeps = λ _ _. true; reply = λ log q. some (database q) }

prepare_planned :
    (prepare_partitions world text_lt planned (some 100) (some 5) 2 []).0 ≡ returned tt
unfolding prepare_partitions sort place check_partitions acquire_lock is_lock_result get_own
    release_lock prepare_missing existing_partitions read_partition_name prepare_each
    prepare_partition is_preparation_failure assert_daily_partition is_partition_name
    assert_utc_boundary expected_name match_canonical scan_date_time scan_milliseconds four_then
    two_then four_digits two_digits expect all_digits date_parse is_date local_time to_iso_string
    make_day day_from_year days_before_month days_in_month is_leap_year civil_from_day year_from_day
    year_search month_search iso_year
prepare_planned = refl

prepare_partitions-Prepared_example :
    Prepared world
      (sort (λ p q. text_lt p.start q.start) planned)
      []
      (seen
        (ledger [] idle)
        (prepare_partitions world text_lt planned (some 100) (some 5) 2 []).1).committed
      (prepare_partitions world text_lt planned (some 100) (some 5) 2 []).0
unfolding seen
prepare_partitions-Prepared_example =
    prepare_partitions-Prepared world text_lt planned (some 100) (some 5) 2 (ledger [] idle) [] []
      refl
