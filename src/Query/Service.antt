-- ===== src/Query/Service.antt =====
-- src/modules/query/log-query-service.ts.
use log_stream.Base.{ℕ, ltb, Bool, true, false, List, [], ◌∷◌, Option, none, some, length, take}
use log_stream.Base.Bytes.{Bytes}
use log_stream.Base.Number.{Number}
use log_stream.Base.Text.{Text}
use log_stream.Domain.Json.{Json}
use log_stream.Query.Result.{QueryError, parsed, failure}
use log_stream.Query.Parameters.{LogFilters, ParsedLogListQuery, parse_log_list_query}
use log_stream.Query.Cursor.{LogCursorPosition, encode_log_cursor, decode_log_cursor}
use log_stream.Query.Repository.{
  ApiLogResponseItem, LogQueryPageRequest, PageResult, page, internal_error, translated_error,
}

-- How `list` ends: the response, a BadRequestError of the parameters or of the cursor, or the
-- repository's error.
pub data Listed : Type 0 where
  response : (logs : List ApiLogResponseItem) (next_cursor : Option Text) → Listed
  bad_parameter : QueryError → Listed
  bad_cursor : Listed
  repository_error : PageResult → Listed

abbrev pub last : {A : Type 0} → List A → Option A
last [] = none
last (x ∷ []) = some x
last (x ∷ y ∷ xs) = last (y ∷ xs)

module _ (digest : Bytes → Text) (stringify_number : Number → Text)
    (read_number : Text → Number) where
  -- The cursor behind the last log of a page that has more behind it.
  unfoldable pub next_cursor_of : Bool → Option ApiLogResponseItem → LogFilters → Option Text
  next_cursor_of false log filters = none
  next_cursor_of true none filters = none
  next_cursor_of true (some log) filters = some (
      encode_log_cursor digest stringify_number read_number
        (record { timestamp = log.timestamp; id = log.id }) filters)

  abbrev pub respond : LogFilters → ℕ → PageResult → Listed
  respond filters limit (page logs) =
      let shown = take limit logs in
      response shown (next_cursor_of (ltb limit (length logs)) (last shown) filters)
  respond filters limit internal_error = repository_error internal_error
  respond filters limit translated_error = repository_error translated_error

  -- What `decodeLogCursor` gives for the parameter, if there is one.
  unfoldable pub start_of : ParsedLogListQuery → Option (Option LogCursorPosition)
  start_of query = elim query.cursor [
    | none ↦ some none
    | some cursor ↦
        elim (decode_log_cursor digest stringify_number read_number cursor query.filters) [
          | none ↦ none
          | some position ↦ some (some position)
        ]
  ]

  unfoldable pub list_parsed : (LogQueryPageRequest → PageResult) → ParsedLogListQuery → Listed
  list_parsed find query = elim (start_of query) [
    | none ↦ bad_cursor
    | some start ↦
        respond query.filters query.limit
          (find (record { filters = query.filters; limit = query.limit; cursor = start }))
  ]

  unfoldable pub list_logs : (LogQueryPageRequest → PageResult) → Json → Listed
  list_logs find query = elim (parse_log_list_query query) [
    | failure e ↦ bad_parameter e
    | parsed value ↦ list_parsed find value
  ]
