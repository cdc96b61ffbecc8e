-- ===== src/Server/Errors.antt =====
-- src/shared/app-error.ts, src/shared/error-handler.ts. Beside an AppError, a thrown value is read as a
-- value of JSON; a reply is what is sent.
pub mod Safe
use log_stream.Base.{
  ℕ, Bool, true, false, not, ◌&&◌, ◌||◌, List, [], ◌∷◌, Option, none, some, ltb, leb, ◌==◌,
  if◌then◌else◌, is_empty, length, drop,
}
use log_stream.Base.Int.{pos}
use log_stream.Base.Maybe.{◌>>=◌}
use log_stream.Base.Number.{Number, int}
use log_stream.Base.Text.{Text, text_eq, units}
use log_stream.Domain.Json.{Json, Members, get_own}
use log_stream.Query.Cursor.{as_object, as_string, require}
use log_stream.Query.Parameters.{starts_with}

pub record AppError : Type 0 where
  pub status_code : ℕ
  pub public_message : Text
  pub retry_after_seconds : Option ℕ

unfoldable pub bad_request_error : Text → AppError
bad_request_error public_message = record {
  status_code = 400;
  public_message = public_message;
  retry_after_seconds = none;
}

abbrev pub transient_service_error : AppError
transient_service_error = record {
  status_code = 503;
  public_message = units "Service temporarily unavailable.";
  retry_after_seconds = some 30;
}

-- What a handler may throw; the classes of AppError are the two of the source.
pub data ThrownError : Type 0 where
  bad_request : Text → ThrownError
  transient_service : ThrownError
  other_value : Json → ThrownError

pub data Classification : Type 0 where
  application fastify_client unexpected : Classification

pub record MappedHttpError : Type 0 where
  pub status_code : ℕ
  pub error : Text
  pub expected : Bool
  pub classification : Classification
  pub framework_error_code : Option Text
  pub retry_after_seconds : Option ℕ

pub record FastifyClientError : Type 0 where
  pub code : Text
  pub status_code : ℕ

abbrev pub malformed_json_message : Text
malformed_json_message = units "Malformed JSON request body."

abbrev pub invalid_request_message : Text
invalid_request_message = units "Invalid request."

abbrev pub internal_error_message : Text
internal_error_message = units "Internal server error."

unfoldable pub are_code_units : Text → Bool
are_code_units [] = true
are_code_units (c ∷ t) =
    ((leb b'A' c && leb c b'Z') || (leb b'0' c && leb c b'9') || c == b'_') && are_code_units t

-- FASTIFY_ERROR_CODE_PATTERN.
unfoldable pub is_fastify_code : Text → Bool
is_fastify_code t =
    starts_with (units "FST_") t
    && are_code_units (drop 4 t)
    && not (is_empty (drop 4 t))
    && leb (length (drop 4 t)) 100

-- An integer from 400 to 499.
unfoldable pub client_status : Json → Option ℕ
client_status (Json.number (int (pos n))) = if ltb n 400 || ltb 499 n then none else some n
client_status _ = none

unfoldable pub get_fastify_client_error : Json → Option FastifyClientError
get_fastify_client_error error = do
  members ← as_object error
  code ← get_own (units "code") members
  code ← as_string code
  _ ← require (is_fastify_code code)
  status ← get_own (units "statusCode") members
  status_code ← client_status status
  some (record { code = code; status_code = status_code })

abbrev pub application_error : AppError → MappedHttpError
application_error e = record {
  status_code = e.status_code;
  error = e.public_message;
  expected = true;
  classification = application;
  framework_error_code = none;
  retry_after_seconds = e.retry_after_seconds;
}

abbrev pub client_error : FastifyClientError → MappedHttpError
client_error e =
    let malformed =
      text_eq e.code (units "FST_ERR_CTP_INVALID_JSON_BODY") && e.status_code == 400 in
    record {
      status_code = if malformed then 400 else e.status_code;
      error = if malformed then malformed_json_message else invalid_request_message;
      expected = true;
      classification = fastify_client;
      framework_error_code = some e.code;
      retry_after_seconds = none;
    }

abbrev pub unexpected_error : MappedHttpError
unexpected_error = record {
  status_code = 500;
  error = internal_error_message;
  expected = false;
  classification = unexpected;
  framework_error_code = none;
  retry_after_seconds = none;
}

abbrev pub map_client_error : Option FastifyClientError → MappedHttpError
map_client_error none = unexpected_error
map_client_error (some e) = client_error e

unfoldable pub map_error_to_http : ThrownError → MappedHttpError
map_error_to_http (bad_request message) = application_error (bad_request_error message)
map_error_to_http transient_service = application_error transient_service_error
map_error_to_http (other_value error) = map_client_error (get_fastify_client_error error)
