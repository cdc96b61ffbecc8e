-- ===== src/Ingestion/Service/Tests.antt =====
-- A body with a log that is accepted and one that is not, and the theorems at it.
use log_stream.Base.{ℕ, ◌≡◌, ◌≢◌, ◌↔◌, refl, true, false, List, [], ◌∷◌, some, is_empty, get_elem?}
use log_stream.Base.Int.{pos}
use log_stream.Base.Number.{Number, int}
use log_stream.Base.Text.{Text, units}
use log_stream.Domain.Checked.{valid, entry_object}
use log_stream.Domain.LogEntry.{info, AttributeValue, ValidatedLogEntry, LogInsertionRecord}
use log_stream.Domain.Calendar.{
  is_leap_year, days_in_month, day_from_year, days_before_month, make_day, year_search,
  year_from_day, month_search, civil_from_day,
}
use log_stream.Domain.Json.{Json, item, no_items, Members, member, no_members, get_own, items}
use log_stream.Domain.LogEntry.{set_own}
use log_stream.Domain.Normalizer.{
  normalize_number, normalize_value, normalize_from, normalize_attributes,
}
use log_stream.Domain.Timestamp.{
  strip_zeros, format_canonical_fraction, compare_fractions, is_date, date_parse, parse_fast,
  is_offset, shift_zone, is_date_time, parse_match, parse_general, parse_canonical_timestamp,
  compare_parsed_timestamps, is_parsed_timestamp_after_epoch_milliseconds,
}
use log_stream.Domain.Timestamp.Print.{local_time, iso_year, to_iso_string, strip_zero_ms}
use log_stream.Domain.Timestamp.Scan.{
  expect, two_digits, four_digits, two_then, four_then, scan_date_time, span_digits, scan_fraction,
  scan_offset, scan_zone, match_timestamp, scan_milliseconds, match_canonical,
}
use log_stream.Domain.Validator.{
  contains_unicode_nul, to_log_level, parse_timestamp, is_attribute_value, text_nul,
  validate_member, validate_members, validate_attributes, read_object, read_string, check_future,
  read_timestamp, check_level, read_level, check_text, read_service, read_message, attributes_of,
  validate_log_entry,
}
use log_stream.Ingestion.Service.{
  response, bad_request, type_error, logs_of, read_logs, add_rejected, add_record, collect, answer,
  ingest,
}
use log_stream.Domain.Validator.Kept.{IsParsed, AreParsed, Keeps, validate_members-Keeps_iff}
use log_stream.Ingestion.Service.Collect.{IsRecord}
use log_stream.Ingestion.Service.Body.{HasLogs}
use log_stream.Ingestion.Service.Laws.{
  IsResponse, ingest-IsResponse, ingest-IsRecord, ingest-IsSafe,
}

abbrev attributes : Members
attributes =
    member (units "code") (Json.number (int (pos 7)))
      (member (units "ok") (Json.boolean true) no_members)

abbrev log : Json
log = Json.object (
    member (units "timestamp") (Json.string (units "2024-02-29T12:00:00+01:30")) (
      member (units "level") (Json.string (units "info")) (
        member (units "service") (Json.string (units "api")) (
          member (units "message") (Json.string (units "up"))
            (member (units "attributes") (Json.object attributes) no_members)))))

abbrev body : Json
body =
    Json.object (member (units "logs") (Json.array (item log (item Json.null no_items))) no_members)

-- The number of milliseconds from the start of the year -400 to one in 2768.
abbrev now : ℕ
now = 100000000000000

abbrev stringify : Number → Text
stringify _ = units "7"

abbrev ids : ℕ → Text
ids n = n ∷ []

abbrev entry : ValidatedLogEntry
entry = record {
  timestamp = units "2024-02-29T10:30:00.000Z";
  level = info;
  service = units "api";
  message = units "up";
  attributes =
      (units "code", AttributeValue.number (int (pos 7)))
      ∷ (units "ok", AttributeValue.boolean true)
      ∷ [];
}

abbrev stored : LogInsertionRecord
stored = record {
  entry = entry;
  id = 0 ∷ [];
  attributes_search = (units "code", units "7") ∷ (units "ok", units "true") ∷ [];
}

-- The body is parsed, and what `ingest` does with it.
ingested :
    AreParsed attributes
    × IsParsed log
    × IsParsed body
    × (validate_log_entry log now ≡ valid entry)
    × ((ingest stringify ids (λ _. true) now body).outcome
        ≡ response 1 (record { index = 1; reason = entry_object } ∷ []))
    × ((ingest stringify ids (λ _. true) now body).inserted ≡ (stored ∷ []) ∷ [])
unfolding local_time iso_year to_iso_string strip_zero_ms expect two_digits four_digits two_then
    four_then scan_date_time span_digits scan_fraction scan_offset scan_zone match_timestamp
    scan_milliseconds match_canonical is_leap_year days_in_month day_from_year days_before_month
    make_day year_search year_from_day month_search civil_from_day get_own items set_own
    normalize_number normalize_value normalize_from normalize_attributes strip_zeros
    format_canonical_fraction compare_fractions is_date date_parse parse_fast is_offset shift_zone
    is_date_time parse_match parse_general parse_canonical_timestamp compare_parsed_timestamps
    is_parsed_timestamp_after_epoch_milliseconds contains_unicode_nul to_log_level parse_timestamp
    is_attribute_value text_nul validate_member validate_members validate_attributes read_object
    read_string check_future read_timestamp check_level read_level check_text read_service
    read_message attributes_of validate_log_entry logs_of read_logs add_rejected add_record collect
    answer ingest IsParsed
ingested = (
  (refl, tt, (refl, tt, tt)),
  (refl, tt, (refl, tt, (refl, tt, (refl, tt, (refl, (refl, tt, (refl, tt, tt)), tt))))),
  (
    refl,
    (
      (refl, tt, (refl, tt, (refl, tt, (refl, tt, (refl, (refl, tt, (refl, tt, tt)), tt))))),
      (tt, tt),
    ),
    tt,
  ),
  refl,
  refl,
  refl,
)

ingest-IsResponse_example :
    (logs : List Json) × (read_logs body ≡ some logs)
    × IsResponse now logs
        (ingest stringify ids (λ _. true) now body).inserted
        1
        (record { index = 1; reason = entry_object } ∷ [])
ingest-IsResponse_example =
    ingest-IsResponse stringify ids (λ _. true) now body 1
      (record { index = 1; reason = entry_object } ∷ []) ingested.4

ingest-IsRecord_example :
    (is_empty (stored ∷ []) ≡ false)
    × (logs : List Json) × (read_logs body ≡ some logs)
    × ((k : ℕ) (r : LogInsertionRecord)
        → get_elem? (stored ∷ []) k ≡ some r
        → IsRecord stringify ids now 0 logs k r)
ingest-IsRecord_example =
    ingest-IsRecord stringify ids (λ _. true) now body (stored ∷ []) ingested.5

ingest-IsSafe_example :
    ((ingest stringify ids (λ _. true) now body).outcome ≢ type_error)
    × (((ingest stringify ids (λ _. true) now body).outcome ≡ bad_request) ↔ (¬ HasLogs body))
ingest-IsSafe_example = ingest-IsSafe stringify ids (λ _. true) now body ingested.2

validate_members-Keeps_iff_example :
    (validate_members attributes [] ≡ valid entry.attributes) ↔ Keeps attributes entry.attributes
validate_members-Keeps_iff_example =
    validate_members-Keeps_iff attributes entry.attributes ingested.0
