-- ===== src/Aggregation/Tests.antt =====
-- An aggregation by hour and level, and the theorems at it.
use log_stream.Base.{◌≡◌, refl, ◌↔◌, [], none, some, length, arith}
use log_stream.Base.Text.{Text, units}
use log_stream.Domain.Json.{Json, Members, member, no_members}
use log_stream.Domain.Json.Stringify.{decimal}
use log_stream.Aggregation.Parameters.{
  one_hour, by_level, ParsedLogAggregationQuery, accepted, parse_log_aggregation_query,
}
use log_stream.Aggregation.Parameters.Described.{
  IsDescribed, parse_log_aggregation_query-IsDescribed_iff,
}
use log_stream.Aggregation.Count.{map_count}
use log_stream.Aggregation.Count.Decimal.{map_count-decimal}
use log_stream.Aggregation.Repository.{build_aggregation_query}
use log_stream.Aggregation.Repository.Injection.{build_aggregation_query-SameShape}

abbrev query : Members
query = member (units "since") (Json.string (units "2024-05-01T00:00:00.000Z")) (
    member (units "until") (Json.string (units "2024-05-02T00:00:00.000Z")) (
      member (units "bucket") (Json.string (units "1h"))
        (member (units "group_by") (Json.string (units "level")) no_members)))

abbrev request : Text → ParsedLogAggregationQuery
request service = record {
  filters = record {
    service = some service;
    level = none;
    since = units "2024-05-01T00:00:00.000Z";
    until = units "2024-05-02T00:00:00.000Z";
    attributes = [];
    q = none;
  };
  bucket = one_hour;
  group_by = some by_level;
}

parse_log_aggregation_query-IsDescribed_iff_example :
    (parse_log_aggregation_query (Json.object query) ≡ accepted (request (units "api")))
    ↔ IsDescribed query (request (units "api"))
parse_log_aggregation_query-IsDescribed_iff_example =
    parse_log_aggregation_query-IsDescribed_iff query (request (units "api"))

map_count-decimal_example :
    map_count (Json.string (decimal 9007199254740991)) ≡ some 9007199254740991
map_count-decimal_example = map_count-decimal 9007199254740991 (omega arith) (omega arith)

build_aggregation_query-SameShape_example :
    ((build_aggregation_query (request (units "api"))).text
      ≡ (build_aggregation_query (request (units "'; --"))).text)
    × (length (build_aggregation_query (request (units "api"))).values
        ≡ length (build_aggregation_query (request (units "'; --"))).values)
build_aggregation_query-SameShape_example =
    build_aggregation_query-SameShape (request (units "api")) (request (units "'; --")) refl refl
      (record {
        service = refl;
        level = refl;
        since = refl;
        until = refl;
        attributes = refl;
        q = refl;
      })
