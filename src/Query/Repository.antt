-- ===== src/Query/Repository.antt =====
-- src/modules/query/log-query-repository.ts. The database answers a statement and its parameters;
-- `none` is a rejected promise.
pub mod Injection
use log_stream.Base.{
  ℕ, ◌+◌, Bool, true, false, ◌&&◌, List, [], ◌∷◌, ◌++◌, Option, none, some, if◌then◌else◌, length,
  take,
}
use log_stream.Base.Maybe.{◌>>=◌}
use log_stream.Base.Text.{Text, units}
use log_stream.Domain.Json.{Json, Items, Members, no_members, member, get_own, items}
use log_stream.Domain.LogEntry.{LogLevel, AttributeValue, Attributes, set_own}
use log_stream.Domain.Timestamp.{ParseResult, ok, grammar, components, parse_canonical_timestamp}
use log_stream.Domain.Validator.{to_log_level, is_attribute_value}
use log_stream.Query.Cursor.{LogCursorPosition, as_string, require}
use log_stream.Query.Parameters.{LogFilters}
use log_stream.Query.Patterns.{is_uuid_v4}
use log_stream.Query.Predicate.{
  SqlValue, text, integer, SqlPredicate, placeholder, build_log_predicate,
}

pub record ApiLogResponseItem : Type 0 where
  pub id : Text
  pub timestamp : Text
  pub level : LogLevel
  pub service : Text
  pub message : Text
  pub attributes : Attributes

pub record LogQueryPageRequest : Type 0 where
  pub filters : LogFilters
  pub limit : ℕ
  pub cursor : Option LogCursorPosition

pub record Statement : Type 0 where
  pub text : Text
  pub values : List SqlValue

-- The loop over the keys; `none` is an InternalDatabaseError.
unfoldable pub map_members : Members → Attributes → Option Attributes
map_members no_members attributes = some attributes
map_members (member key value rest) attributes = do
  v ← is_attribute_value value
  map_members rest (set_own key v attributes)

unfoldable pub map_attributes : Option Json → Option Attributes
map_attributes (some (Json.object members)) = map_members members []
map_attributes _ = none

unfoldable pub read_text : Text → Members → Option Text
read_text key row = do value ← get_own key row; as_string value

abbrev canonical_result : ParseResult → Option Text
canonical_result (ok t) = some t.canonical
canonical_result grammar = none
canonical_result components = none

unfoldable pub canonical_timestamp : Text → Option Text
canonical_timestamp t = canonical_result (parse_canonical_timestamp t)

unfoldable pub map_row : Json → Option ApiLogResponseItem
map_row (Json.object row) = do
  id ← read_text (units "id") row
  _ ← require (is_uuid_v4 id)
  timestamp ← read_text (units "timestamp") row
  level ← read_text (units "level") row
  level ← to_log_level level
  service ← read_text (units "service") row
  message ← read_text (units "message") row
  timestamp ← canonical_timestamp timestamp
  attributes ← map_attributes (get_own (units "attributes") row)
  some (record {
    id = id;
    timestamp = timestamp;
    level = level;
    service = service;
    message = message;
    attributes = attributes;
  })
map_row _ = none

-- The clause of the cursor, with `values` in which its two parameters already stand.
unfoldable pub cursor_clause : ℕ → Text
cursor_clause count =
    units "\n  AND (logs.\"timestamp\", logs.id) < ("
    ++ (placeholder (count + 1)
        ++ (units "::timestamptz, " ++ (placeholder (count + 2) ++ units "::uuid)")))

-- `values` and `cursorClause`.
unfoldable pub bind_cursor : Option LogCursorPosition → List SqlValue → Text × List SqlValue
bind_cursor none values = ([], values)
bind_cursor (some p) values =
    (cursor_clause (length values), values ++ (text p.timestamp ∷ text p.id ∷ []))

abbrev pub select_rows : Text
select_rows =
    units
      "\nSELECT\n  logs.id::text AS id,\n  to_char(\n    logs.\"timestamp\" AT TIME ZONE 'UTC',\n    'YYYY-MM-DD\"T\"HH24:MI:SS.US\"Z\"'\n  ) AS timestamp,\n  logs.level,\n  logs.service,\n  logs.message,\n  logs.attributes\nFROM logstream.logs AS logs\nWHERE "

unfoldable pub build_page_query : LogQueryPageRequest → Statement
build_page_query request =
    let predicate = build_log_predicate request.filters in
    let bound = bind_cursor request.cursor predicate.values in
    let values = bound.1 ++ (integer (request.limit + 1) ∷ []) in
    record {
      text =
          select_rows
          ++ (predicate.text
              ++ (bound.0
                  ++ (units "\nORDER BY logs.\"timestamp\" DESC, logs.id DESC\nLIMIT "
                      ++ (placeholder (length values) ++ units "::integer\n"))));
      values = values;
    }

pub data PageResult : Type 0 where
  page : List ApiLogResponseItem → PageResult
  internal_error translated_error : PageResult

unfoldable pub map_rows : List Json → Option (List ApiLogResponseItem)
map_rows [] = some []
map_rows (row ∷ rows) = do first ← map_row row; later ← map_rows rows; some (first ∷ later)

unfoldable pub array_of : Option Json → Option (List Json)
array_of (some (Json.array rows)) = some (items rows)
array_of _ = none

-- `result.rows`, if it is an array.
unfoldable pub rows_of : Json → Option (List Json)
rows_of (Json.object result) = array_of (get_own (units "rows") result)
rows_of _ = none

abbrev pub page_of : Option (List ApiLogResponseItem) → PageResult
page_of none = internal_error
page_of (some logs) = page logs

unfoldable pub read_page : ℕ → Json → PageResult
read_page limit result = page_of (do rows ← rows_of result; map_rows (take (limit + 1) rows))

unfoldable pub find_page : (Statement → Option Json) → LogQueryPageRequest → PageResult
find_page database request = elim (database (build_page_query request)) [
  | none ↦ translated_error
  | some result ↦ read_page request.limit result
]
