-- ===== src/Query/Parameters/Tests.antt =====
-- A query with a service and an attribute, and the theorem at it.
use log_stream.Base.{◌≡◌, ◌↔◌, [], ◌∷◌, none, some}
use log_stream.Base.Text.{units}
use log_stream.Domain.Json.{Json, Members, member, no_members}
use log_stream.Query.Result.{parsed}
use log_stream.Query.Parameters.{LogFilters, parse_filters}
use log_stream.Query.Parameters.Described.{IsFilters}
use log_stream.Query.Parameters.Accepted.{parse_filters-IsFilters_iff}

abbrev query : Members
query =
    member (units "attr.user") (Json.string (units "7"))
      (member (units "service") (Json.string (units "api")) no_members)

abbrev filters : LogFilters
filters = record {
  service = some (units "api");
  level = none;
  since = none;
  until = none;
  attributes = record { key = units "user"; value = units "7" } ∷ [];
  q = none;
}

parse_filters-IsFilters_iff_example :
    (parse_filters query ≡ parsed filters) ↔ IsFilters query filters
parse_filters-IsFilters_iff_example = parse_filters-IsFilters_iff query filters
