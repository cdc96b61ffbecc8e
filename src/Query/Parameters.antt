-- ===== src/Query/Parameters.antt =====
-- src/modules/query/query-parameter-parser.ts. An untrusted query is a value of JSON; an own,
-- enumerable data property is what `get_own` finds.
pub mod Limit
pub mod Described
pub mod Named
pub mod Reading
pub mod Attributes
pub mod Accepted
mod Tests
use log_stream.Base.{
  ℕ, ◌+◌, ◌*◌, Bool, true, false, not, ◌&&◌, ◌||◌, List, [], ◌∷◌, ◌++◌, Option, none, some, ltb,
  leb, ◌==◌, if◌then◌else◌, is_empty, drop, keep_if,
}
use log_stream.Base.Number.{max_safe_integer}
use log_stream.Base.Text.{Text, text_eq, text_lt, units}
use log_stream.Domain.Json.{Json, Members, no_members, member, get_own}
use log_stream.Domain.LogEntry.{LogLevel}
use log_stream.Domain.Validator.{contains_unicode_nul, to_log_level}
use log_stream.Domain.Timestamp.{
  ParsedTimestamp, ParseResult, ok, grammar, components, Order, less, equal, greater, number_from,
  parse_canonical_timestamp, compare_parsed_timestamps,
}
use log_stream.Domain.Timestamp.Scan.{is_digit}
use log_stream.Query.Sorting.{sort}
use log_stream.Query.Result.{
  QueryError, query_object, service_duplicate, service_string, service_nul, level_duplicate,
  level_string, level_value, since_duplicate, since_timestamp, until_duplicate, until_timestamp,
  range, attribute_key, attribute_duplicate, attribute_string, attribute_key_nul,
  attribute_value_nul, q_duplicate, q_string, q_nul, limit_duplicate, limit_value, cursor_duplicate,
  cursor_value, QueryParse, parsed, failure, ◌>>=◌,
}

pub record AttributeFilter : Type 0 where
  pub key : Text
  pub value : Text

pub record LogFilters : Type 0 where
  pub service : Option Text
  pub level : Option LogLevel
  pub since : Option Text
  pub until : Option Text
  pub attributes : List AttributeFilter
  pub q : Option Text

pub record ParsedLogListQuery : Type 0 where
  pub filters : LogFilters
  pub limit : ℕ
  pub cursor : Option Text

abbrev pub scalar_of : QueryError → QueryError → Option Json → QueryParse (Option Text)
scalar_of twice other none = parsed none
scalar_of twice other (some (Json.string t)) = parsed (some t)
scalar_of twice other (some (Json.array xs)) = failure twice
scalar_of twice other (some _) = failure other

-- `readScalar`; `none` is absent.
unfoldable pub read_scalar : Text → QueryError → QueryError → Members → QueryParse (Option Text)
read_scalar key twice other query = scalar_of twice other (get_own key query)

-- The test for U+0000 of a scalar that is there.
unfoldable pub refuse_nul : QueryError → Option Text → QueryParse (Option Text)
refuse_nul e none = parsed none
refuse_nul e (some t) = if contains_unicode_nul t then failure e else parsed (some t)

abbrev pub known_level : Option LogLevel → QueryParse (Option LogLevel)
known_level none = failure level_value
known_level (some l) = parsed (some l)

unfoldable pub parse_level : Option Text → QueryParse (Option LogLevel)
parse_level none = parsed none
parse_level (some t) = known_level (to_log_level t)

abbrev pub time_of : QueryError → ParseResult → QueryParse (Option ParsedTimestamp)
time_of other (ok t) = parsed (some t)
time_of other grammar = failure other
time_of other components = failure other

unfoldable pub to_timestamp : QueryError → Option Text → QueryParse (Option ParsedTimestamp)
to_timestamp other none = parsed none
to_timestamp other (some t) = time_of other (parse_canonical_timestamp t)

unfoldable pub parse_optional_timestamp :
    Text → QueryError → QueryError → Members → QueryParse (Option ParsedTimestamp)
parse_optional_timestamp key twice other query = do
  scalar ← read_scalar key twice other query
  to_timestamp other scalar

abbrev is_less : Order → Bool
is_less less = true
is_less _ = false

-- `until` before `since`.
unfoldable pub is_reversed : Option ParsedTimestamp → Option ParsedTimestamp → Bool
is_reversed (some since) (some until) = is_less (compare_parsed_timestamps until since)
is_reversed _ _ = false

unfoldable pub check_range : Option ParsedTimestamp → Option ParsedTimestamp → QueryParse (Unit {0})
check_range since until = if is_reversed since until then failure range else parsed tt

unfoldable pub starts_with : Text → Text → Bool
starts_with [] t = true
starts_with (p ∷ prefix) [] = false
starts_with (p ∷ prefix) (x ∷ t) = x == p && starts_with prefix t

abbrev pub attribute_prefix : Text
attribute_prefix = units "attr."

-- `Object.keys`.
unfoldable pub keys_of : Members → List Text
keys_of no_members = []
keys_of (member key value rest) = key ∷ keys_of rest

unfoldable pub attribute_names : Members → List Text
attribute_names query = sort text_lt (keep_if (starts_with attribute_prefix) (keys_of query))

unfoldable pub check_key : Text → QueryParse Text
check_key key =
    if is_empty key
    then failure attribute_key
    else if contains_unicode_nul key
    then failure attribute_key_nul
    else parsed key

-- `attributes.push`, and `continue` for an absent one.
abbrev pub push_attribute : Text → Option Text → List AttributeFilter → List AttributeFilter
push_attribute key none later = later
push_attribute key (some value) later = record { key = key; value = value } ∷ later

-- The loop over the names; the list is what the rest of the loop pushes.
unfoldable pub parse_attributes : List Text → Members → QueryParse (List AttributeFilter)
parse_attributes [] query = parsed []
parse_attributes (name ∷ names) query = do
  key ← check_key (drop 5 name)
  scalar ← read_scalar name attribute_duplicate attribute_string query
  value ← refuse_nul attribute_value_nul scalar
  later ← parse_attributes names query
  parsed (push_attribute key value later)

unfoldable pub parse_attribute_filters : Members → QueryParse (List AttributeFilter)
parse_attribute_filters query = parse_attributes (attribute_names query) query

abbrev pub if_present : Option Text → Option Text
if_present none = none
if_present (some t) = if is_empty t then none else some t

abbrev pub canonical_of : Option ParsedTimestamp → Option Text
canonical_of none = none
canonical_of (some t) = some t.canonical

unfoldable pub parse_filters : Members → QueryParse LogFilters
parse_filters query = do
  service ← read_scalar (units "service") service_duplicate service_string query
  service ← refuse_nul service_nul service
  level ← read_scalar (units "level") level_duplicate level_string query
  level ← parse_level level
  since ← parse_optional_timestamp (units "since") since_duplicate since_timestamp query
  until ← parse_optional_timestamp (units "until") until_duplicate until_timestamp query
  _ ← check_range since until
  attributes ← parse_attribute_filters query
  q ← read_scalar (units "q") q_duplicate q_string query
  q ← refuse_nul q_nul q
  parsed (record {
    service = service;
    level = level;
    since = canonical_of since;
    until = canonical_of until;
    attributes = attributes;
    q = if_present q;
  })

unfoldable pub query_of : Json → QueryParse Members
query_of (Json.object query) = parsed query
query_of _ = failure query_object

unfoldable pub parse_log_filters : Json → QueryParse LogFilters
parse_log_filters input = do query ← query_of input; parse_filters query

unfoldable pub all_digits : Text → Bool
all_digits [] = true
all_digits (c ∷ t) = is_digit c && all_digits t

-- A run of digits is a safe integer exactly if its value is one: rounding is monotone.
unfoldable pub read_limit : Option Text → QueryParse ℕ
read_limit none = parsed 100
read_limit (some t) =
    let n = number_from 0 t in
    if is_empty t || not (all_digits t)
    then failure limit_value
    else if not (leb n max_safe_integer) || ltb n 1 || ltb 1000 n
    then failure limit_value
    else parsed n

unfoldable pub parse_limit : Members → QueryParse ℕ
parse_limit query = do
  limit ← read_scalar (units "limit") limit_duplicate limit_value query
  read_limit limit

unfoldable pub check_cursor : Option Text → QueryParse (Option Text)
check_cursor none = parsed none
check_cursor (some t) = if is_empty t then failure cursor_value else parsed (some t)

unfoldable pub parse_log_list_query : Json → QueryParse ParsedLogListQuery
parse_log_list_query input = do
  filters ← parse_log_filters input
  query ← query_of input
  limit ← parse_limit query
  cursor ← read_scalar (units "cursor") cursor_duplicate cursor_value query
  cursor ← check_cursor cursor
  parsed (record { filters = filters; limit = limit; cursor = cursor })
