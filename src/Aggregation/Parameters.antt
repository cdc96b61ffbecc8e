-- ===== src/Aggregation/Parameters.antt =====
-- src/modules/aggregation/aggregation-parameter-parser.ts.
pub mod Described
use log_stream.Base.{◌≡◌, refl, Bool, true, false, List, Option, none, some, if◌then◌else◌}
use log_stream.Base.Text.{Text, text_eq, units}
use log_stream.Domain.Json.{Json, get_own}
use log_stream.Domain.LogEntry.{LogLevel}
use log_stream.Query.Result.{QueryError, QueryParse, parsed, failure}
use log_stream.Query.Parameters.{AttributeFilter, LogFilters, parse_log_filters}

pub data AggregationBucket : Type 0 where
  one_minute five_minutes one_hour one_day : AggregationBucket

pub data AggregationGroupBy : Type 0 where
  by_service by_level : AggregationGroupBy

pub record RequiredAggregationFilters : Type 0 where
  pub service : Option Text
  pub level : Option LogLevel
  pub since : Text
  pub until : Text
  pub attributes : List AttributeFilter
  pub q : Option Text

pub record ParsedLogAggregationQuery : Type 0 where
  pub filters : RequiredAggregationFilters
  pub bucket : AggregationBucket
  pub group_by : Option AggregationGroupBy

-- The errors of the filters, and the constant ERRORS.
pub data AggregationError : Type 0 where
  filter_error : QueryError → AggregationError
  since_required until_required : AggregationError
  bucket_required bucket_duplicate bucket_value : AggregationError
  group_by_duplicate group_by_value : AggregationError

pub data AggregationParse (A : Type 0) : Type 0 where
  accepted : A → AggregationParse A
  refused : AggregationError → AggregationParse A

infixl 5 ◌>>=◌
abbrev pub ◌>>=◌ :
    {A B : Type 0} → AggregationParse A → (A → AggregationParse B) → AggregationParse B
accepted a >>= f = f a
refused e >>= f = refused e

-- A chain of reads that succeeds has a first read that does.
pub accepted_elim {ι} :
    {A B : Type 0} {P : Type ι} (first : AggregationParse A) (next : A → AggregationParse B) {b : B}
    → ((a : A) → first ≡ accepted a → next a ≡ accepted b → P)
    → (first >>= next) ≡ accepted b
    → P
accepted_elim (accepted a) next use_it h = use_it a refl h
accepted_elim (refused e) next use_it h = absurd (cc)

pub accepted-injective : {A : Type 0} {a b : A} → accepted a ≡ accepted b → a ≡ b
accepted-injective h = cc

abbrev pub scalar_of :
    AggregationError → AggregationError → Option Json → AggregationParse (Option Text)
scalar_of twice other none = accepted none
scalar_of twice other (some (Json.string t)) = accepted (some t)
scalar_of twice other (some (Json.array xs)) = refused twice
scalar_of twice other (some _) = refused other

-- `readAggregationScalar`; `none` is absent.
unfoldable pub read_aggregation_scalar :
    Json → Text → AggregationError → AggregationError → AggregationParse (Option Text)
read_aggregation_scalar (Json.object query) key twice other =
    scalar_of twice other (get_own key query)
read_aggregation_scalar _ key twice other = refused other

-- `isAggregationBucket`, with the bucket.
unfoldable pub bucket_of : Text → Option AggregationBucket
bucket_of t =
    if text_eq t (units "1m")
    then some one_minute
    else if text_eq t (units "5m")
    then some five_minutes
    else if text_eq t (units "1h")
    then some one_hour
    else if text_eq t (units "1d")
    then some one_day
    else none

-- `isAggregationGroupBy`, with the group.
unfoldable pub group_of : Text → Option AggregationGroupBy
group_of t =
    if text_eq t (units "service")
    then some by_service
    else if text_eq t (units "level")
    then some by_level
    else none

-- `return sharedFilters` for an error.
abbrev pub shared_of : QueryParse LogFilters → AggregationParse LogFilters
shared_of (failure e) = refused (filter_error e)
shared_of (parsed filters) = accepted filters

unfoldable pub shared_filters : Json → AggregationParse LogFilters
shared_filters input = shared_of (parse_log_filters input)

abbrev pub present : {A : Type 0} → AggregationError → Option A → AggregationParse A
present e none = refused e
present e (some a) = accepted a

unfoldable pub read_bucket : Json → AggregationParse AggregationBucket
read_bucket input = do
  scalar ← read_aggregation_scalar input (units "bucket") bucket_duplicate bucket_value
  text ← present bucket_required scalar
  present bucket_value (bucket_of text)

abbrev pub known_group : Option AggregationGroupBy → AggregationParse (Option AggregationGroupBy)
known_group none = refused group_by_value
known_group (some g) = accepted (some g)

abbrev pub parse_group : Option Text → AggregationParse (Option AggregationGroupBy)
parse_group none = accepted none
parse_group (some t) = known_group (group_of t)

unfoldable pub read_group : Json → AggregationParse (Option AggregationGroupBy)
read_group input = do
  scalar ← read_aggregation_scalar input (units "group_by") group_by_duplicate group_by_value
  parse_group scalar

abbrev pub required : LogFilters → Text → Text → RequiredAggregationFilters
required f since until = record {
  service = f.service;
  level = f.level;
  since = since;
  until = until;
  attributes = f.attributes;
  q = f.q;
}

unfoldable pub parse_log_aggregation_query : Json → AggregationParse ParsedLogAggregationQuery
parse_log_aggregation_query input = do
  shared ← shared_filters input
  since ← present since_required shared.since
  until ← present until_required shared.until
  bucket ← read_bucket input
  group_by ← read_group input
  accepted (record { filters = required shared since until; bucket = bucket; group_by = group_by })
