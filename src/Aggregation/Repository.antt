-- ===== src/Aggregation/Repository.antt =====
-- src/modules/aggregation/log-aggregation-repository.ts. The database answers a statement and its
-- parameters; `none` is a rejected promise. A bucket and a group are values of their types here, so
-- the source's guards on foreign ones have no case.
pub mod Injection
use log_stream.Base.{
  ℕ, ◌+◌, Bool, true, false, not, ◌&&◌, ◌||◌, List, [], ◌∷◌, ◌++◌, Option, none, some,
  if◌then◌else◌, length, is_empty,
}
use log_stream.Base.Maybe.{◌>>=◌}
use log_stream.Base.Text.{Text, units}
use log_stream.Domain.Json.{Json, Members, get_own}
use log_stream.Domain.Validator.{to_log_level}
use log_stream.Domain.Validator.Fields.{level_name}
use log_stream.Query.Cursor.{as_string}
use log_stream.Query.Parameters.{LogFilters}
use log_stream.Query.Predicate.{SqlValue, text, Builder, bind_present, join, build_log_predicate}
use log_stream.Query.Repository.{Statement, canonical_timestamp, rows_of}
use log_stream.Aggregation.Parameters.{
  AggregationBucket, one_minute, five_minutes, one_hour, one_day, AggregationGroupBy, by_service,
  by_level, RequiredAggregationFilters, ParsedLogAggregationQuery,
}
use log_stream.Aggregation.Count.{map_count}

pub record LogAggregationBucket : Type 0 where
  pub start : Text
  pub group : Option Text
  pub count : ℕ

-- BUCKET_INTERVAL_SQL.
unfoldable pub bucket_interval : AggregationBucket → Text
bucket_interval one_minute = units "INTERVAL '1 minute'"
bucket_interval five_minutes = units "INTERVAL '5 minutes'"
bucket_interval one_hour = units "INTERVAL '1 hour'"
bucket_interval one_day = units "INTERVAL '1 day'"

-- `groupValueSql`, `groupBySql` and `groupOrderSql`.
unfoldable pub group_value_sql : Option AggregationGroupBy → Text
group_value_sql none = units "NULL::text"
group_value_sql (some by_service) = units "logs.service"
group_value_sql (some by_level) = units "logs.level"

unfoldable pub group_by_sql : Option AggregationGroupBy → Text
group_by_sql none = units "GROUP BY 1"
group_by_sql (some g) = units "GROUP BY 1, 2"

unfoldable pub group_order_sql : Option AggregationGroupBy → Text
group_order_sql none = []
group_order_sql (some g) = units ", aggregation.group_value ASC"

-- The filters of a request, as `buildLogPredicate` takes them.
abbrev pub as_filters : RequiredAggregationFilters → LogFilters
as_filters f = record {
  service = f.service;
  level = f.level;
  since = some f.since;
  until = some f.until;
  attributes = f.attributes;
  q = f.q;
}

unfoldable pub can_use_rollup : RequiredAggregationFilters → Bool
can_use_rollup f = elim f.q [ none ↦ is_empty f.attributes | some q ↦ false ]

-- The statement that both builders write round the column, the count, the table and the condition.
unfoldable pub aggregation_text : ParsedLogAggregationQuery → Text → Text → Text → Text → Text
aggregation_text request column count table condition =
    units
      "\nSELECT\n  to_char(\n    aggregation.bucket_start AT TIME ZONE 'UTC',\n    'YYYY-MM-DD\"T\"HH24:MI:SS.US\"Z\"'\n  ) AS start,\n  aggregation.group_value AS \"group\",\n  aggregation.count::text AS count\nFROM (\n  SELECT\n    date_bin(\n      "
    ++ (bucket_interval request.bucket
        ++ (units ",\n      "
            ++ (column
                ++ (units
                      ",\n      TIMESTAMPTZ '1970-01-01 00:00:00+00'\n    ) AS bucket_start,\n    "
                    ++ (group_value_sql request.group_by
                        ++ (units " AS group_value,\n    "
                            ++ (count
                                ++ (units " AS count\n  FROM "
                                    ++ (table
                                        ++ (units " AS logs\n  WHERE "
                                            ++ (condition
                                                ++ (units "\n  "
                                                    ++ (group_by_sql request.group_by
                                                        ++ (units
                                                            "\n) AS aggregation\nORDER BY aggregation.bucket_start ASC"
                                                            ++ (group_order_sql request.group_by
                                                            ++ units "\n")))))))))))))))

-- `clauses` and `values` of the roll-up.
unfoldable pub bind_rollup : RequiredAggregationFilters → Builder
bind_rollup f =
    let b : Builder = record {
      clauses =
          units "logs.bucket_start >= $1::timestamptz"
          ∷ units "logs.bucket_start < $2::timestamptz"
          ∷ [];
      values = text f.since ∷ text f.until ∷ [];
    } in
    bind_present (units "logs.level = ") [] (λ l. text (level_name l)) f.level
      (bind_present (units "logs.service = ") [] text f.service b)

unfoldable pub build_rollup_aggregation_query : ParsedLogAggregationQuery → Statement
build_rollup_aggregation_query request =
    let b = bind_rollup request.filters in
    record {
      text =
          aggregation_text request (units "logs.bucket_start") (units "SUM(logs.count)")
            (units "logstream.log_minute_aggregates") (join (units " AND ") b.clauses);
      values = b.values;
    }

unfoldable pub build_raw_aggregation_query : ParsedLogAggregationQuery → Statement
build_raw_aggregation_query request =
    let predicate = build_log_predicate (as_filters request.filters) in
    record {
      text =
          aggregation_text request (units "logs.\"timestamp\"") (units "COUNT(*)")
            (units "logstream.logs") predicate.text;
      values = predicate.values;
    }

unfoldable pub build_aggregation_query : ParsedLogAggregationQuery → Statement
build_aggregation_query request =
    if can_use_rollup request.filters
    then build_rollup_aggregation_query request
    else build_raw_aggregation_query request

-- `null` is `none`.
unfoldable pub map_group : Option AggregationGroupBy → Json → Option (Option Text)
map_group none Json.null = some none
map_group none _ = none
map_group (some by_service) value = do t ← as_string value; some (some t)
map_group (some by_level) value = do t ← as_string value; _ ← to_log_level t; some (some t)

unfoldable pub map_bucket_row : Option AggregationGroupBy → Json → Option LogAggregationBucket
map_bucket_row group_by (Json.object row) = do
  start ← get_own (units "start") row
  group ← get_own (units "group") row
  count ← get_own (units "count") row
  start ← as_string start
  start ← canonical_timestamp start
  group ← map_group group_by group
  count ← map_count count
  some (record { start = start; group = group; count = count })
map_bucket_row group_by _ = none

unfoldable pub map_bucket_rows :
    Option AggregationGroupBy → List Json → Option (List LogAggregationBucket)
map_bucket_rows group_by [] = some []
map_bucket_rows group_by (row ∷ rows) = do
  first ← map_bucket_row group_by row
  later ← map_bucket_rows group_by rows
  some (first ∷ later)

pub data AggregationResult : Type 0 where
  buckets : List LogAggregationBucket → AggregationResult
  internal_error translated_error : AggregationResult

abbrev buckets_of : Option (List LogAggregationBucket) → AggregationResult
buckets_of none = internal_error
buckets_of (some found) = buckets found

unfoldable pub aggregate : (Statement → Option Json) → ParsedLogAggregationQuery → AggregationResult
aggregate database request = elim (database (build_aggregation_query request)) [
  | none ↦ translated_error
  | some result ↦ buckets_of (do rows ← rows_of result; map_bucket_rows request.group_by rows)
]
