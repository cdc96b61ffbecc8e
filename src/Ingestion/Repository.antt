-- ===== src/Ingestion/Repository.antt =====
-- src/modules/ingestion/ingestion-repository.ts. Records come from the ingestion service, so that they have
-- their search attributes and a canonical timestamp. A time is as in src/domain/timestamp.ts, in
-- milliseconds from the start of the year -400.
-- `localeCompare` and the database are parameters; a thrown error is `none`.
pub mod Keys
pub mod Groups
mod Tests
use log_stream.Base.{
  ℕ, suc, ◌+◌, ◌-◌, ◌*◌, ◌/◌, Bool, true, false, not, ◌&&◌, ◌||◌, List, [], ◌∷◌, ◌++◌, Option, none,
  some, map, is_empty, ltb, leb, ◌==◌, take, if◌then◌else◌,
}
use log_stream.Base.Maybe.{◌>>=◌}
use log_stream.Base.Number.{Number}
use log_stream.Base.Text.{Text, text_eq, units, pad_end}
use log_stream.Domain.Calendar.{days_in_month, make_day}
use log_stream.Domain.Json.{Json, Members, no_members, member}
use log_stream.Domain.Json.Stringify.{stringify}
use log_stream.Domain.LogEntry.{AttributeValue, Attributes, LogInsertionRecord}
use log_stream.Domain.Timestamp.{Order, less, equal, greater, number_from}
use log_stream.Domain.Timestamp.Scan.{expect, two_digits, two_then, four_then, scan_fraction}
use log_stream.Domain.Timestamp.Print.{to_iso_string}
use log_stream.Domain.Validator.Fields.{level_name}
use log_stream.Query.Cursor.{require}
use log_stream.Query.Sorting.{sort}

-- INSERT_LOGS_AND_AGGREGATES_SQL.
abbrev pub insert_logs_and_aggregates_sql : Text
insert_logs_and_aggregates_sql =
    units
      "\nWITH inserted AS (\n  INSERT INTO logstream.logs (\n    timestamp,\n    id,\n    level,\n    service,\n    message,\n    attributes,\n    attributes_search\n  )\n  SELECT\n    batch.timestamp,\n    batch.id,\n    batch.level,\n    batch.service,\n    batch.message,\n    batch.attributes,\n    batch.attributes_search\n  FROM UNNEST(\n    $1::timestamptz[],\n    $2::uuid[],\n    $3::text[],\n    $4::text[],\n    $5::text[],\n    $6::jsonb[],\n    $7::jsonb[]\n  ) AS batch(timestamp, id, level, service, message, attributes, attributes_search)\n)\nINSERT INTO logstream.log_minute_aggregates (\n  bucket_start,\n  service,\n  level,\n  count\n)\nSELECT\n  agg.bucket_start,\n  agg.service,\n  agg.level,\n  agg.count\nFROM UNNEST(\n  $8::timestamptz[],\n  $9::text[],\n  $10::text[],\n  $11::bigint[]\n) AS agg(bucket_start, service, level, count)\nON CONFLICT (bucket_start, service, level)\nDO UPDATE SET count = logstream.log_minute_aggregates.count + EXCLUDED.count;\n"

pub record AggregateGroup : Type 0 where
  pub bucket_start : Text
  pub service : Text
  pub level : Text
  pub count : ℕ

-- The year of a text for `Date.parse`, plus 400: four digits, or a sign and six digits, where a minus
-- stands before 1 to 400 (a canonical timestamp has no year below -1).
abbrev signed_year : ℕ → ℕ → Option ℕ
signed_year sign year =
    if sign == b'+'
    then some (year + 400)
    else if ltb year 1 || ltb 400 year
    then none
    else some (400 - year)

unfoldable pub scan_year : Text → Option (ℕ × Text)
scan_year [] = none
scan_year (c ∷ t) =
    if c == b'+' || c == b'-'
    then (do
      (high, t₁) ← two_digits t
      (low, t₂) ← four_then b'-' t₁
      year ← signed_year c (high * 10000 + low)
      some (year, t₂))
    else (do (year, t₁) ← four_then b'-' (c ∷ t); some (year + 400, t₁))

-- The milliseconds of a date and a time of day, and `none` for NaN.
abbrev time_value : (year month day hour minute second ms : ℕ) → Option ℕ
time_value year month day hour minute second ms =
    if not (ltb month 1 || ltb 12 month || ltb day 1 || ltb (days_in_month year month) day)
      && leb hour 23
      && leb minute 59
      && leb second 59
    then some (
        make_day year month day * 86400000 + (hour * 3600000 + minute * 60000 + second * 1000) + ms)
    else none

-- `Date.parse` of a canonical timestamp, of whose fraction it reads three digits.
unfoldable pub parse_date : Text → Option ℕ
parse_date t = do
  (year, t₁) ← scan_year t
  (month, t₂) ← two_then b'-' t₁
  (day, t₃) ← two_then b'T' t₂
  (hour, t₄) ← two_then b':' t₃
  (minute, t₅) ← two_then b':' t₄
  (second, t₆) ← two_digits t₅
  (fraction, t₇) ← scan_fraction t₆
  rest ← expect b'Z' t₇
  _ ← require (is_empty rest)
  time_value year month day hour minute second (number_from 0 (take 3 (pad_end 3 b'0' fraction)))

-- `toISOString` of NaN throws.
unfoldable pub to_minute_bucket_iso : Text → Option Text
to_minute_bucket_iso timestamp = do
  parsed ← parse_date timestamp
  some (to_iso_string (parsed / 60000 * 60000))

-- The key of a group in the map: its parts with U+0000 between them.
abbrev pub key_of : Text → Text → Text → Text
key_of bucket_start service level = bucket_start ++ (0 ∷ (service ++ (0 ∷ level)))

abbrev pub group_key : AggregateGroup → Text
group_key g = key_of g.bucket_start g.service g.level

-- A record, for the map: the group of its own.
unfoldable pub group_for : LogInsertionRecord → Option AggregateGroup
group_for r = do
  bucket_start ← to_minute_bucket_iso r.entry.timestamp
  some (record {
    bucket_start = bucket_start;
    service = r.entry.service;
    level = level_name r.entry.level;
    count = 1;
  })

-- `existing.count += 1`, or `groups.set`; the map keeps the order in which keys came.
unfoldable pub add_group : AggregateGroup → List AggregateGroup → List AggregateGroup
add_group g [] = g ∷ []
add_group g (existing ∷ groups) =
    if text_eq (group_key existing) (group_key g)
    then record existing { count = existing.count + 1 } ∷ groups
    else existing ∷ add_group g groups

-- The loop over the records.
unfoldable pub collect_groups :
    List LogInsertionRecord → List AggregateGroup → Option (List AggregateGroup)
collect_groups [] groups = some groups
collect_groups (r ∷ records) groups = do
  g ← group_for r
  collect_groups records (add_group g groups)

abbrev json_value : AttributeValue → Json
json_value (AttributeValue.text t) = Json.string t
json_value (AttributeValue.number n) = Json.number n
json_value (AttributeValue.boolean b) = Json.boolean b

unfoldable pub attribute_members : Attributes → Members
attribute_members [] = no_members
attribute_members ((key, value) ∷ rest) = member key (json_value value) (attribute_members rest)

unfoldable pub search_members : List (Text × Text) → Members
search_members [] = no_members
search_members ((key, t) ∷ rest) = member key (Json.string t) (search_members rest)

-- The arrays, in the order of the placeholders.
pub record InsertParameters : Type 0 where
  pub timestamps : List Text
  pub ids : List Text
  pub levels : List Text
  pub services : List Text
  pub messages : List Text
  pub attributes : List Text
  pub attributes_search : List Text
  pub agg_bucket_starts : List Text
  pub agg_services : List Text
  pub agg_levels : List Text
  pub agg_counts : List ℕ

pub data Inserted : Type 0 where
  no_query translated_error : Inserted
  stored : InsertParameters → Inserted

module _ (locale_compare : Text → Text → Order) (stringify_number : Number → Text) where
  abbrev next_test : Order → Bool → Bool
  next_test less later = true
  next_test greater later = false
  next_test equal later = later

  -- The comparison is negative.
  unfoldable pub group_before : AggregateGroup → AggregateGroup → Bool
  group_before left right = next_test (locale_compare left.bucket_start right.bucket_start) (
      next_test (locale_compare left.service right.service)
        (next_test (locale_compare left.level right.level) false))

  unfoldable pub group_records_for_aggregation :
      List LogInsertionRecord → Option (List AggregateGroup)
  group_records_for_aggregation records = do
    groups ← collect_groups records []
    some (sort group_before groups)

  abbrev serialize_jsonb : Members → Text
  serialize_jsonb members = stringify stringify_number (Json.object members)

  unfoldable pub build_insert_parameters : List LogInsertionRecord → Option InsertParameters
  build_insert_parameters records = do
    groups ← group_records_for_aggregation records
    some (record {
      timestamps = map (λ (r : LogInsertionRecord). r.entry.timestamp) records;
      ids = map (λ (r : LogInsertionRecord). r.id) records;
      levels = map (λ (r : LogInsertionRecord). level_name r.entry.level) records;
      services = map (λ (r : LogInsertionRecord). r.entry.service) records;
      messages = map (λ (r : LogInsertionRecord). r.entry.message) records;
      attributes =
          map (λ (r : LogInsertionRecord). serialize_jsonb (attribute_members r.entry.attributes))
            records;
      attributes_search =
          map (λ (r : LogInsertionRecord). serialize_jsonb (search_members r.attributes_search))
            records;
      agg_bucket_starts = map (λ (g : AggregateGroup). g.bucket_start) groups;
      agg_services = map (λ (g : AggregateGroup). g.service) groups;
      agg_levels = map (λ (g : AggregateGroup). g.level) groups;
      agg_counts = map (λ (g : AggregateGroup). g.count) groups;
    })

  -- The database says whether it takes the statement.
  unfoldable pub insert : (Text → InsertParameters → Bool) → List LogInsertionRecord → Inserted
  insert database records =
      if is_empty records then no_query else elim (build_insert_parameters records) [
        | none ↦ translated_error
        | some parameters ↦
            if database insert_logs_and_aggregates_sql parameters
            then stored parameters
            else translated_error
      ]
