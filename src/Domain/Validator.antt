-- ===== src/Domain/Validator.antt =====
-- src/domain/log-entry-validator.ts. A time is counted as in Domain/Timestamp.
pub mod Kept
pub mod Fields
pub mod Laws
use log_stream.Base.{
  ℕ, ◌+◌, Bool, true, false, not, ◌||◌, List, [], ◌∷◌, Option, none, some, ◌==◌, if◌then◌else◌,
  is_empty,
}
use log_stream.Base.Number.{Number, is_finite}
use log_stream.Base.Text.{Text, text_eq, units}
use log_stream.Domain.Json.{Json, Members, no_members, member, get_own}
use log_stream.Domain.Checked.{
  Checked, valid, invalid, ◌>>=◌, Reason, entry_object, timestamp_required, timestamp_string,
  timestamp_grammar, timestamp_components, timestamp_future, level_required, level_string,
  level_value, service_required, service_string, service_empty, service_nul, message_required,
  message_string, message_empty, message_nul, attributes_object, attribute_key_nul, attribute_value,
  attribute_string_nul,
}
use log_stream.Domain.LogEntry.{
  LogLevel, debug, info, warn, error, AttributeValue, Attributes, set_own, ValidatedLogEntry,
}
use log_stream.Domain.Timestamp.{
  ParsedTimestamp, ok, grammar, components, parse_canonical_timestamp,
  is_parsed_timestamp_after_epoch_milliseconds,
}

abbrev pub five_minutes_ms : ℕ
five_minutes_ms = 300000

unfoldable pub contains_unicode_nul : Text → Bool
contains_unicode_nul [] = false
contains_unicode_nul (c ∷ t) = c == 0 || contains_unicode_nul t

unfoldable pub to_log_level : Text → Option LogLevel
to_log_level t =
    if text_eq t (units "debug")
    then some debug
    else if text_eq t (units "info")
    then some info
    else if text_eq t (units "warn")
    then some warn
    else if text_eq t (units "error")
    then some error
    else none

unfoldable pub parse_timestamp : Text → Checked ParsedTimestamp
parse_timestamp value = elim (parse_canonical_timestamp value) [
  | ok timestamp ↦ valid timestamp
  | grammar ↦ invalid timestamp_grammar
  | components ↦ invalid timestamp_components
]

unfoldable pub is_attribute_value : Json → Option AttributeValue
is_attribute_value (Json.string t) = some (AttributeValue.text t)
is_attribute_value (Json.boolean b) = some (AttributeValue.boolean b)
is_attribute_value (Json.number n) = if is_finite n then some (AttributeValue.number n) else none
is_attribute_value _ = none

unfoldable pub text_nul : AttributeValue → Bool
text_nul (AttributeValue.text t) = contains_unicode_nul t
text_nul _ = false

unfoldable pub validate_member : Text → Json → Checked AttributeValue
validate_member key value =
    if contains_unicode_nul key
    then invalid attribute_key_nul
    else elim (is_attribute_value value) [
      | none ↦ invalid attribute_value
      | some v ↦ if text_nul v then invalid attribute_string_nul else valid v
    ]

-- The loop over `Object.entries(value)`, with `safeAttributes` so far.
unfoldable pub validate_members : Members → Attributes → Checked Attributes
validate_members no_members safe = valid safe
validate_members (member key value rest) safe = do
  v ← validate_member key value
  validate_members rest (set_own key v safe)

unfoldable pub validate_attributes : Json → Checked Attributes
validate_attributes (Json.object members) = validate_members members []
validate_attributes _ = invalid attributes_object

unfoldable pub read_object : Json → Checked Members
read_object (Json.object entry) = valid entry
read_object _ = invalid entry_object

-- An own property that has to be a string.
unfoldable pub read_string : Text → Reason → Reason → Members → Checked Text
read_string key missing other entry = elim (get_own key entry) [
  | none ↦ invalid missing
  | some (Json.string t) ↦ valid t
  | some _ ↦ invalid other
]

unfoldable pub check_future : ℕ → ParsedTimestamp → Checked ParsedTimestamp
check_future reference_time_ms timestamp =
    if is_parsed_timestamp_after_epoch_milliseconds timestamp (reference_time_ms + five_minutes_ms)
    then invalid timestamp_future
    else valid timestamp

unfoldable pub read_timestamp : ℕ → Members → Checked ParsedTimestamp
read_timestamp reference_time_ms entry = do
  value ← read_string (units "timestamp") timestamp_required timestamp_string entry
  timestamp ← parse_timestamp value
  check_future reference_time_ms timestamp

unfoldable pub check_level : Text → Checked LogLevel
check_level value = elim (to_log_level value) [
  | none ↦ invalid level_value
  | some level ↦ valid level
]

unfoldable pub read_level : Members → Checked LogLevel
read_level entry = do
  value ← read_string (units "level") level_required level_string entry
  check_level value

-- A string that is not empty and has no U+0000.
unfoldable pub check_text : Reason → Reason → Text → Checked Text
check_text empty nul value =
    if is_empty value
    then invalid empty
    else if contains_unicode_nul value
    then invalid nul
    else valid value

unfoldable pub read_service : Members → Checked Text
read_service entry = do
  value ← read_string (units "service") service_required service_string entry
  check_text service_empty service_nul value

unfoldable pub read_message : Members → Checked Text
read_message entry = do
  value ← read_string (units "message") message_required message_string entry
  check_text message_empty message_nul value

unfoldable pub attributes_of : Members → Json
attributes_of entry = elim (get_own (units "attributes") entry) [
  | none ↦ Json.object no_members
  | some value ↦ value
]

unfoldable pub validate_log_entry : Json → ℕ → Checked ValidatedLogEntry
validate_log_entry input reference_time_ms = do
  entry ← read_object input
  timestamp ← read_timestamp reference_time_ms entry
  level ← read_level entry
  service ← read_service entry
  message ← read_message entry
  attributes ← validate_attributes (attributes_of entry)
  valid (record {
    timestamp = timestamp.canonical;
    level = level;
    service = service;
    message = message;
    attributes = attributes;
  })
