-- ===== src/Query/Parameters/Limit.antt =====
-- src/modules/query/query-parameter-parser.ts: the limit of a query.
use log_stream.Base.{ℕ, ◌≤◌, ◌≡◌, subst, Option, none, some, arith}
use log_stream.Base.Text.{Text, units}
use log_stream.Domain.Json.{Json, Members}
use log_stream.Query.Result.{
  parsed, parsed_elim, parsed-injective, limit_duplicate, limit_value, cursor_duplicate,
  cursor_value,
}
use log_stream.Query.Parameters.{
  ParsedLogListQuery, read_scalar, query_of, parse_log_filters, read_limit, parse_limit,
  check_cursor, parse_log_list_query,
}

read_limit_bounds : (t : Option Text) {n : ℕ} → read_limit t ≡ parsed n → (1 ≤ n) × (n ≤ 1000)
unfolding read_limit
read_limit_bounds none {n} h =
    subst (λ m. (1 ≤ m) × (m ≤ 1000)) (parsed-injective h) (omega arith, omega arith)
read_limit_bounds (some t) {n} h = ground arith

pub parse_limit_bounds :
    (query : Members) {n : ℕ} → parse_limit query ≡ parsed n → (1 ≤ n) × (n ≤ 1000)
unfolding parse_limit
parse_limit_bounds query =
    parsed_elim (read_scalar (units "limit") limit_duplicate limit_value query) _
      λ t _. read_limit_bounds t

pub parse_log_list_query_limit :
    (input : Json) (v : ParsedLogListQuery)
    → parse_log_list_query input ≡ parsed v
    → (1 ≤ v.limit) × (v.limit ≤ 1000)
unfolding parse_log_list_query
parse_log_list_query_limit input v = parsed_elim (parse_log_filters input) _ λ f _.
    parsed_elim (query_of input) _ λ query _. parsed_elim (parse_limit query) _ λ n en.
      parsed_elim (read_scalar (units "cursor") cursor_duplicate cursor_value query) _ λ c _.
        parsed_elim (check_cursor c) _ λ d _ h.
          subst (λ (w : ParsedLogListQuery). (1 ≤ w.limit) × (w.limit ≤ 1000)) (parsed-injective h)
            (parse_limit_bounds query en)
