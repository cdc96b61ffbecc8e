-- ===== src/Ingestion/Repository/Tests.antt =====
-- Two records of one minute, and the theorem at them.
use log_stream.Base.{◌≡◌, refl, List, [], ◌∷◌, some}
use log_stream.Base.Number.{Number}
use log_stream.Base.Text.{Text, units}
use log_stream.Domain.Calendar.{
  is_leap_year, days_in_month, day_from_year, days_before_month, make_day, year_search,
  year_from_day, month_search, civil_from_day,
}
use log_stream.Domain.LogEntry.{info, LogInsertionRecord}
use log_stream.Domain.Timestamp.{Order, equal}
use log_stream.Domain.Timestamp.Print.{iso_year, to_iso_string}
use log_stream.Domain.Timestamp.Scan.{
  expect, two_digits, four_digits, two_then, four_then, span_digits, scan_fraction,
}
use log_stream.Query.Sorting.{place, sort}
use log_stream.Ingestion.Repository.{
  AggregateGroup, scan_year, parse_date, to_minute_bucket_iso, group_for, add_group, collect_groups,
  group_before, group_records_for_aggregation,
}
use log_stream.Ingestion.Repository.Groups.{counted, occurrences, counted-group_records}

abbrev record_at : Text → LogInsertionRecord
record_at timestamp = record {
  entry = record {
    timestamp = timestamp;
    level = info;
    service = units "api";
    message = units "up";
    attributes = [];
  };
  id = units "1";
  attributes_search = [];
}

abbrev records : List LogInsertionRecord
records =
    record_at (units "2024-05-01T12:00:01.000Z") ∷ record_at (units "2024-05-01T12:00:59.999Z") ∷ []

abbrev groups : List AggregateGroup
groups =
    record {
      bucket_start = units "2024-05-01T12:00:00.000Z";
      service = units "api";
      level = units "info";
      count = 2;
    }
    ∷ []

abbrev compare_as_equal : Text → Text → Order
compare_as_equal left right = equal

abbrev number_text_of : Number → Text
number_text_of n = units "0"

grouped : group_records_for_aggregation compare_as_equal number_text_of records ≡ some groups
unfolding group_records_for_aggregation collect_groups group_for to_minute_bucket_iso parse_date
    scan_year add_group sort place group_before scan_fraction span_digits four_then two_then
    four_digits two_digits expect days_in_month is_leap_year to_iso_string iso_year make_day
    day_from_year days_before_month civil_from_day year_from_day year_search month_search
grouped = refl

-- A record of the year before 0.
early :
    to_minute_bucket_iso (units "-000001-12-31T10:00:59.1234Z")
    ≡ some (units "-000001-12-31T10:00:00.000Z")
unfolding to_minute_bucket_iso parse_date scan_year scan_fraction span_digits four_then two_then
    four_digits two_digits expect days_in_month is_leap_year to_iso_string iso_year make_day
    day_from_year days_before_month civil_from_day year_from_day year_search month_search
early = refl

counted-group_records_example :
    counted (units "2024-05-01T12:00:00.000Z") (units "api") (units "info") groups
    ≡ occurrences (units "2024-05-01T12:00:00.000Z") (units "api") (units "info") records
counted-group_records_example =
    counted-group_records compare_as_equal number_text_of (units "2024-05-01T12:00:00.000Z")
      (units "api") (units "info") records groups grouped
