-- ===== src/Server/Errors/Safe.antt =====
-- src/shared/error-handler.ts: what a reply to an error tells.
use mathlib.Core.Logic.{◌⊎◌}
use log_stream.Base.{ℕ, ◌≤◌, ◌≡◌, true, false, some}
use log_stream.Base.Int.{pos}
use log_stream.Base.Number.{int}
use log_stream.Base.Text.{Text, units}
use log_stream.Domain.Json.{Json, Members, get_own}
use log_stream.Server.Errors.{
  MappedHttpError, FastifyClientError, malformed_json_message, invalid_request_message,
  internal_error_message,
}

-- The thrown value has this code and this status as own members.
abbrev HasStatus : Json → Text → ℕ → Type 0
HasStatus error code status =
    (members : Members) × (error ≡ Json.object members)
    × (get_own (units "code") members ≡ some (Json.string code))
    × (get_own (units "statusCode") members ≡ some (Json.number (int (pos status))))

-- A client error of the framework, as the thrown value has it.
abbrev IsThrown : Json → FastifyClientError → Type 0
IsThrown error e =
    HasStatus error e.code e.status_code × (400 ≤ e.status_code) × (e.status_code ≤ 499)

-- One of the fixed messages, with a status of its kind: the framework's are those of the thrown value.
abbrev pub IsFixed : Json → MappedHttpError → Type 0
IsFixed error m =
    ((m.error ≡ internal_error_message) × (m.status_code ≡ 500) × (m.expected ≡ false))
    ⊎ (((m.error ≡ malformed_json_message)
          × (m.status_code ≡ 400)
          × (m.expected ≡ true)
          × HasStatus error (units "FST_ERR_CTP_INVALID_JSON_BODY") 400)
        ⊎ ((m.error ≡ invalid_request_message)
            × (400 ≤ m.status_code)
            × (m.status_code ≤ 499)
            × (m.expected ≡ true)
            × (code : Text) × HasStatus error code m.status_code))
