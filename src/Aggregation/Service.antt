-- ===== src/Aggregation/Service.antt =====
-- src/modules/aggregation/log-aggregation-service.ts.
use log_stream.Domain.Json.{Json}
use log_stream.Aggregation.Parameters.{
  AggregationError, accepted, refused, ParsedLogAggregationQuery, parse_log_aggregation_query,
}
use log_stream.Aggregation.Repository.{AggregationResult}

-- How `aggregate` ends: the repository's answer or a BadRequestError.
pub data Aggregated : Type 0 where
  answered : AggregationResult → Aggregated
  bad_request : AggregationError → Aggregated

unfoldable pub aggregate_logs : (ParsedLogAggregationQuery → AggregationResult) → Json → Aggregated
aggregate_logs repository query = elim (parse_log_aggregation_query query) [
  | refused e ↦ bad_request e
  | accepted request ↦ answered (repository request)
]
