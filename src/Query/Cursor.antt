-- ===== src/Query/Cursor.antt =====
-- src/modules/query/cursor-codec.ts. `digest` is the hexadecimal SHA-256 of bytes; how JSON writes and
-- reads the numbers that are not small naturals is a parameter, too. A thrown error and
-- `invalidCursor()` are both `none`.
pub mod Exact
pub mod Payload
pub mod RoundTrip
use log_stream.Base.{
  ℕ, ◌+◌, Bool, true, false, not, ◌&&◌, ◌||◌, List, [], ◌∷◌, ◌++◌, Option, none, some, ltb, ◌==◌,
  if◌then◌else◌, is_empty, length,
}
use log_stream.Base.Bytes.{Bytes, utf8, decode_utf8, to_base64url, from_base64url}
use log_stream.Base.Int.{pos}
use log_stream.Base.Maybe.{◌>>=◌}
use log_stream.Base.Number.{Number, int}
use log_stream.Base.Text.{Text, text_eq, text_lt, units}
use log_stream.Domain.Json.{Json, Items, no_items, item, Members, no_members, member, get_own}
use log_stream.Domain.Json.Stringify.{stringify}
use log_stream.Domain.Json.Parse.{parse_json}
use log_stream.Domain.LogEntry.{LogLevel}
use log_stream.Domain.Timestamp.{
  ParsedTimestamp, ParseResult, ok, grammar, components, parse_canonical_timestamp,
}
use log_stream.Domain.Validator.Fields.{level_name}
use log_stream.Query.Parameters.{AttributeFilter, LogFilters, keys_of}
use log_stream.Query.Patterns.{is_uuid_v4, is_sha_256_hex, is_base64url}
use log_stream.Query.Sorting.{sort}

pub record LogCursorPosition : Type 0 where
  pub timestamp : Text
  pub id : Text

pub record CursorPayload : Type 0 where
  pub version : Json
  pub timestamp : Json
  pub id : Json
  pub filter_fingerprint : Json

abbrev pub cursor_semantics : Text
cursor_semantics = units "logstream.cursor.timestamp-desc-id-desc.v1"

-- `?? null`.
abbrev or_null : Option Text → Json
or_null none = Json.null
or_null (some t) = Json.string t

abbrev level_json : Option LogLevel → Json
level_json none = Json.null
level_json (some l) = Json.string (level_name l)

abbrev search_json : Option Text → Json
search_json none = Json.null
search_json (some q) = if is_empty q then Json.null else Json.string q

-- `compareAttributes(left, right) < 0`.
unfoldable pub attribute_before : AttributeFilter → AttributeFilter → Bool
attribute_before left right =
    text_lt left.key right.key || (text_eq left.key right.key && text_lt left.value right.value)

abbrev attribute_json : AttributeFilter → Json
attribute_json a = Json.array (item (Json.string a.key) (item (Json.string a.value) no_items))

unfoldable pub attribute_items : List AttributeFilter → Items
attribute_items [] = no_items
attribute_items (a ∷ attributes) = item (attribute_json a) (attribute_items attributes)

unfoldable pub filter_json : LogFilters → Json
filter_json f = Json.object (
    member (units "semantics") (Json.string cursor_semantics) (
      member (units "service") (or_null f.service) (
        member (units "level") (level_json f.level) (
          member (units "since") (or_null f.since) (
            member (units "until") (or_null f.until) (
              member (units "q") (search_json f.q) (
                member (units "attributes")
                  (Json.array (attribute_items (sort attribute_before f.attributes)))
                  no_members)))))))

-- The members of a payload, in the order in which it is written.
unfoldable pub payload_members : CursorPayload → Members
payload_members p = member (units "version") p.version (
    member (units "timestamp") p.timestamp (
      member (units "id") p.id
        (member (units "filterFingerprint") p.filter_fingerprint no_members)))

abbrev is_own : Text → Members → Bool
is_own key candidate = elim (get_own key candidate) [ none ↦ false | some value ↦ true ]

unfoldable pub has_exact_payload_keys : Members → Bool
has_exact_payload_keys candidate =
    length (keys_of candidate) == 4
    && is_own (units "version") candidate
    && is_own (units "timestamp") candidate
    && is_own (units "id") candidate
    && is_own (units "filterFingerprint") candidate

unfoldable pub bytes_eq : Bytes → Bytes → Bool
bytes_eq = text_eq

abbrev pub require : Bool → Option (Unit {0})
require true = some tt
require false = none

unfoldable pub as_object : Json → Option Members
as_object (Json.object members) = some members
as_object _ = none

unfoldable pub as_string : Json → Option Text
as_string (Json.string t) = some t
as_string _ = none

-- `version !== CURSOR_VERSION`, for a number.
unfoldable pub is_version : Json → Bool
is_version (Json.number (int (pos n))) = n == 1
is_version _ = false

-- A timestamp that parses to itself.
abbrev same_canonical : Text → ParseResult → Bool
same_canonical t (ok p) = text_eq p.canonical t
same_canonical t grammar = false
same_canonical t components = false

unfoldable pub is_canonical : Text → Bool
is_canonical t = same_canonical t (parse_canonical_timestamp t)

unfoldable pub read_payload : Members → Option CursorPayload
read_payload candidate = do
  version ← get_own (units "version") candidate
  timestamp ← get_own (units "timestamp") candidate
  id ← get_own (units "id") candidate
  fingerprint ← get_own (units "filterFingerprint") candidate
  some (record {
    version = version;
    timestamp = timestamp;
    id = id;
    filter_fingerprint = fingerprint;
  })

abbrev pub payload_of : LogCursorPosition → Text → CursorPayload
payload_of position fingerprint = record {
  version = Json.number (int (pos 1));
  timestamp = Json.string position.timestamp;
  id = Json.string position.id;
  filter_fingerprint = Json.string fingerprint;
}

-- The tests of the cursor's text, and the JSON that it holds.
unfoldable pub decode_text : Text → Option Text
decode_text cursor = do
  _ ← require (is_base64url cursor)
  let bytes = from_base64url cursor
  _ ← require (text_eq (to_base64url bytes) cursor)
  json ← decode_utf8 bytes
  _ ← require (bytes_eq (utf8 json) bytes)
  some json

module _ (digest : Bytes → Text) (stringify_number : Number → Text)
    (read_number : Text → Number) where
  unfoldable pub canonical_filter_json : LogFilters → Text
  canonical_filter_json f = stringify stringify_number (filter_json f)

  unfoldable pub filter_fingerprint : LogFilters → Text
  filter_fingerprint f = digest (utf8 (canonical_filter_json f))

  unfoldable pub payload_json : CursorPayload → Text
  payload_json p = stringify stringify_number (Json.object (payload_members p))

  unfoldable pub encode_log_cursor : LogCursorPosition → LogFilters → Text
  encode_log_cursor position filters =
      to_base64url (utf8 (payload_json (payload_of position (filter_fingerprint filters))))

  -- The tests of the payload, and the position.
  unfoldable pub check_payload : CursorPayload → LogFilters → Option LogCursorPosition
  check_payload payload filters = do
    _ ← require (is_version payload.version)
    timestamp ← as_string payload.timestamp
    id ← as_string payload.id
    fingerprint ← as_string payload.filter_fingerprint
    _ ← require (is_uuid_v4 id)
    _ ← require (is_sha_256_hex fingerprint)
    _ ← require (is_canonical timestamp)
    _ ← require (text_eq fingerprint (filter_fingerprint filters))
    some (record { timestamp = timestamp; id = id })

  unfoldable pub decode_payload : Text → Option CursorPayload
  decode_payload json = do
    value ← parse_json read_number json
    candidate ← as_object value
    _ ← require (has_exact_payload_keys candidate)
    payload ← read_payload candidate
    _ ← require (text_eq (payload_json payload) json)
    some payload

  unfoldable pub decode_log_cursor : Text → LogFilters → Option LogCursorPosition
  decode_log_cursor cursor filters = do
    json ← decode_text cursor
    payload ← decode_payload json
    check_payload payload filters
