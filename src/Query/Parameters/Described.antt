-- ===== src/Query/Parameters/Described.antt =====
-- src/modules/query/query-parameter-parser.ts: which filters a query gives.
use log_stream.Base.{
  ◌≡◌, ◌≢◌, ◌<◌, ◌⊎◌, true, false, List, [], ◌∷◌, ◌++◌, Option, none, some, All, map, max, length,
  take, is_empty, if◌then◌else◌,
}
use log_stream.Base.Text.{Text, text_eq, text_lt, units, pad_end}
use log_stream.Domain.Json.{Json, Members, no_members, member, get_own}
use log_stream.Domain.LogEntry.{LogLevel}
use log_stream.Domain.Timestamp.{ParsedTimestamp, ok, parse_canonical_timestamp}
use log_stream.Domain.Validator.Fields.{level_name}
use log_stream.Query.Sorting.{sort}
use log_stream.Query.Parameters.{AttributeFilter, LogFilters}

-- By code units, the second text does not come before the first, and a list of texts in this order.
abbrev pub IsNotLess : Text → Text → Type 0
IsNotLess x y = text_lt y x ≡ false

abbrev pub IsSorted : List Text → Type 0
IsSorted [] = Unit
IsSorted (x ∷ []) = Unit
IsSorted (x ∷ y ∷ ys) = IsNotLess x y × IsSorted (y ∷ ys)

-- The member of a parameter that is absent, or a text.
abbrev pub text_member : Option Text → Option Json
text_member none = none
text_member (some t) = some (Json.string t)

abbrev pub HasNoNul : Option Text → Type 0
HasNoNul none = Unit
HasNoNul (some t) = All (λ c. c ≢ 0) t

abbrev pub IsRead : Members → Text → Option Text → Type 0
IsRead query key o = (get_own key query ≡ text_member o) × HasNoNul o

abbrev pub level_text : Option LogLevel → Option Text
level_text none = none
level_text (some l) = some (level_name l)

abbrev pub IsTime : Option Text → Option ParsedTimestamp → Type 0
IsTime none none = Unit
IsTime (some x) (some t) = parse_canonical_timestamp x ≡ ok t
IsTime none (some t) = true ≡ false
IsTime (some x) none = true ≡ false

abbrev pub IsReadTime : Members → Text → Option ParsedTimestamp → Type 0
IsReadTime query key time = (o : Option Text) × (get_own key query ≡ text_member o) × IsTime o time

abbrev pub canonical_text : Option ParsedTimestamp → Option Text
canonical_text none = none
canonical_text (some t) = some t.canonical

-- `until` is not before `since`: a second later, or the same second with a fraction that is not less.
abbrev pub IsInOrder : Option ParsedTimestamp → Option ParsedTimestamp → Type 0
IsInOrder (some since) (some until) =
    (since.whole_second_ms < until.whole_second_ms)
    ⊎ ((since.whole_second_ms ≡ until.whole_second_ms)
        × (IsNotLess
            (pad_end (max (length until.fraction) (length since.fraction)) b'0' since.fraction)
            (pad_end (max (length until.fraction) (length since.fraction)) b'0' until.fraction)))
IsInOrder none none = Unit
IsInOrder none (some until) = Unit
IsInOrder (some since) none = Unit

-- A search is there where its parameter is a text that is not empty.
abbrev pub IsSearch : Members → Option Text → Type 0
IsSearch query none =
    (get_own (units "q") query ≡ none) ⊎ (get_own (units "q") query ≡ some (Json.string []))
IsSearch query (some t) = (is_empty t ≡ false) × IsRead query (units "q") (some t)

-- The names of the members that begin with the five code units `attr.`.
abbrev pub names_behind : Members → List Text
names_behind no_members = []
names_behind (member name value query) =
    if text_eq (take 5 name) (units "attr.") then name ∷ names_behind query else names_behind query

-- An attribute whose parameter is the text of its value.
abbrev pub IsAttribute : Members → AttributeFilter → Type 0
IsAttribute query a =
    (is_empty a.key ≡ false)
    × HasNoNul (some a.key)
    × IsRead query (units "attr." ++ a.key) (some a.value)

abbrev pub name_of : AttributeFilter → Text
name_of a = units "attr." ++ a.key

-- The filters, one for each parameter, with one attribute for each name of an attribute in order.
pub record IsFilters (query : Members) (f : LogFilters) : Type 0 where
  pub service_ok : IsRead query (units "service") f.service
  pub level_ok : get_own (units "level") query ≡ text_member (level_text f.level)
  pub since_time : Option ParsedTimestamp
  pub until_time : Option ParsedTimestamp
  pub since_ok : IsReadTime query (units "since") since_time
  pub until_ok : IsReadTime query (units "until") until_time
  pub since_same : f.since ≡ canonical_text since_time
  pub until_same : f.until ≡ canonical_text until_time
  pub range_ok : IsInOrder since_time until_time
  pub in_order : IsSorted (map name_of f.attributes)
  pub names_ok : map name_of f.attributes ≡ sort text_lt (names_behind query)
  pub attributes_ok : All (IsAttribute query) f.attributes
  pub search_ok : IsSearch query f.q
