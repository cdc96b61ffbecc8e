-- ===== src/Query/Paging.antt =====
-- src/modules/query: a client that follows `next_cursor`, and the table that the pages come from.
pub mod Order
pub mod Cursorless
pub mod Complete
pub mod Rows
use log_stream.Base.{
  ℕ, zero, suc, ◌+◌, ◌≡◌, Bool, true, false, List, [], ◌∷◌, ◌++◌, Option, none, some, All, take,
  keep_if,
}
use log_stream.Base.Bytes.{Bytes}
use log_stream.Base.Maybe.{◌>>=◌}
use log_stream.Base.Number.{Number}
use log_stream.Base.Text.{Text, units}
use log_stream.Domain.Json.{Json, Members, member}
use log_stream.Query.Cursor.{LogCursorPosition}
use log_stream.Query.Repository.{ApiLogResponseItem, LogQueryPageRequest, PageResult, page}
use log_stream.Query.Service.{
  Listed, response, bad_parameter, bad_cursor, repository_error, list_logs,
}

abbrev pub position_of : ApiLogResponseItem → LogCursorPosition
position_of log = record { timestamp = log.timestamp; id = log.id }

-- `(timestamp, id) < (p.timestamp, p.id)` of the database: the row comes behind the position.
abbrev pub Behind : Type 0
Behind = LogCursorPosition → ApiLogResponseItem → Bool

-- Rows in the order of the statement: each is behind those before it, and none behind itself or
-- those after it.
abbrev pub IsDescending : Behind → List ApiLogResponseItem → Type 0
IsDescending behind [] = Unit
IsDescending behind (row ∷ rows) =
    All (λ r. behind (position_of row) r ≡ true) rows
    × All (λ r. behind (position_of r) row ≡ false) (row ∷ rows)
    × IsDescending behind rows

abbrev pub rows_behind :
    Behind → Option LogCursorPosition → List ApiLogResponseItem → List ApiLogResponseItem
rows_behind behind none rows = rows
rows_behind behind (some p) rows = keep_if (behind p) rows

-- What the repository promises of a table whose rows for the filters of `request` are `rows`.
abbrev pub FindsPages :
    Behind
    → List ApiLogResponseItem
    → (LogQueryPageRequest → PageResult)
    → LogQueryPageRequest
    → Type 0
FindsPages behind rows find request =
    find request ≡ page (take (request.limit + 1) (rows_behind behind request.cursor rows))

abbrev pub with_cursor : Option Text → Members → Members
with_cursor none query = query
with_cursor (some cursor) query = member (units "cursor") (Json.string cursor) query

module _ (digest : Bytes → Text) (stringify_number : Number → Text) (read_number : Text → Number)
    (find : LogQueryPageRequest → PageResult) where
  -- All pages of a query from a cursor on, in at most as many calls as the fuel; `none` is an error.
  unfoldable pub fetch_all : ℕ → Members → Option Text → Option (List ApiLogResponseItem)
  fetch_all zero query cursor = none
  fetch_all (suc fuel) query cursor =
      elim (list_logs digest stringify_number read_number find
        (Json.object (with_cursor cursor query))) [
          | response logs none ↦ some logs
          | response logs (some next) ↦ do
            later ← fetch_all fuel query (some next)
            some (logs ++ later)
          | bad_parameter e ↦ none
          | bad_cursor ↦ none
          | repository_error e ↦ none
        ]
