-- ===== src/Query/Paging/Rows.antt =====
-- src/modules/query: what a client reads that follows `next_cursor` to the end.
use log_stream.Base.{ℕ, ◌<◌, ◌≡◌, refl, true, List, [], ◌∷◌, Option, none, some, All, length}
use log_stream.Base.Bytes.{Bytes}
use log_stream.Base.Number.{Number}
use log_stream.Base.Text.{Text}
use log_stream.Domain.Json.{Json, Members}
use log_stream.Query.Result.{parsed}
use log_stream.Query.Parameters.{LogFilters, ParsedLogListQuery, parse_log_list_query}
use log_stream.Query.Parameters.Limit.{parse_log_list_query_limit}
use log_stream.Query.Patterns.{is_sha_256_hex}
use log_stream.Query.Cursor.{LogCursorPosition}
use log_stream.Query.Cursor.RoundTrip.{IsPosition, decode_log_cursor-encode}
use log_stream.Query.Repository.{ApiLogResponseItem, LogQueryPageRequest, PageResult}
use log_stream.Query.Paging.{position_of, Behind, IsDescending, FindsPages, fetch_all}
use log_stream.Query.Paging.Complete.{LeadsBack, fetch_all-At}

module _ (digest : Bytes → Text) (stringify_number : Number → Text)
    (read_number : Text → Number) where
  All-LeadsBack :
      (filters : LogFilters) (rows : List ApiLogResponseItem)
      → ((bytes : Bytes) → is_sha_256_hex (digest bytes) ≡ true)
      → All (λ row. IsPosition (position_of row)) rows
      → All (LeadsBack digest stringify_number read_number filters) rows
  All-LeadsBack filters [] hex h = tt
  All-LeadsBack filters (row ∷ rows) hex (h, k) = (
    decode_log_cursor-encode digest stringify_number read_number (position_of row) filters hex h,
    All-LeadsBack filters rows hex k,
  )

  -- For a query without a cursor that parses, over a table whose rows for its filters are `rows`, each with a UUID and a canonical timestamp and sorted in the descending order of the statement, where the repository answers each position with the first limit + 1 rows behind it and the digest is hexadecimal: a client that follows `next_cursor` until it is null reads exactly these rows, each once and in order, in at most one call more than there are rows.
  pub fetch_all-rows :
      (find : LogQueryPageRequest → PageResult) (behind : Behind) (rows : List ApiLogResponseItem)
      (query : Members) (v : ParsedLogListQuery) (fuel : ℕ)
      → ((bytes : Bytes) → is_sha_256_hex (digest bytes) ≡ true)
      → parse_log_list_query (Json.object query) ≡ parsed v
      → v.cursor ≡ none
      → All (λ row. IsPosition (position_of row)) rows
      → IsDescending behind rows
      → ((start : Option LogCursorPosition)
          → FindsPages behind rows find
              (record { filters = v.filters; limit = v.limit; cursor = start }))
      → length rows < fuel
      → fetch_all digest stringify_number read_number find fuel query none ≡ some rows
  fetch_all-rows find behind rows query v fuel hex hp hn positions ord finds enough =
      fetch_all-At digest stringify_number read_number find behind rows query v fuel none rows hp hn
        (parse_log_list_query_limit (Json.object query) v hp).0 ord finds
        (All-LeadsBack v.filters rows hex positions) refl enough
