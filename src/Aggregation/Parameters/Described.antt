-- ===== src/Aggregation/Parameters/Described.antt =====
-- src/modules/aggregation/aggregation-parameter-parser.ts: which queries are accepted.
use mathlib.Core.Option.{some-injective}
use log_stream.Base.{◌≡◌, refl, sym, ap, subst, ◌∙◌, ◌↔◌, true, Option, none, some, if_intro}
use log_stream.Base.Text.{Text, text_eq, text_eq→eq, units}
use log_stream.Domain.Json.{Json, Members, get_own}
use log_stream.Query.Result.{QueryParse, parsed, failure}
use log_stream.Query.Parameters.{LogFilters, parse_log_filters}
use log_stream.Query.Parameters.Described.{text_member}
use log_stream.Aggregation.Parameters.{
  AggregationBucket, one_minute, five_minutes, one_hour, one_day, AggregationGroupBy, by_service,
  by_level, ParsedLogAggregationQuery, AggregationError, accepted, accepted_elim,
  accepted-injective, scalar_of, read_aggregation_scalar, bucket_of, group_of, shared_of,
  shared_filters, present, since_required, until_required, bucket_required, bucket_duplicate,
  bucket_value, group_by_duplicate, group_by_value, read_bucket, known_group, parse_group,
  read_group, required, parse_log_aggregation_query,
}

abbrev pub bucket_name : AggregationBucket → Text
bucket_name one_minute = units "1m"
bucket_name five_minutes = units "5m"
bucket_name one_hour = units "1h"
bucket_name one_day = units "1d"

abbrev pub group_name : AggregationGroupBy → Text
group_name by_service = units "service"
group_name by_level = units "level"

abbrev pub group_member : Option AggregationGroupBy → Option Json
group_member none = none
group_member (some g) = some (Json.string (group_name g))

-- The query's filters, with both ends of the range, and the names of its bucket and its group.
pub record IsDescribed (query : Members) (v : ParsedLogAggregationQuery) : Type 0 where
  pub shared : LogFilters
  pub filters_ok : parse_log_filters (Json.object query) ≡ parsed shared
  pub since_ok : shared.since ≡ some v.filters.since
  pub until_ok : shared.until ≡ some v.filters.until
  pub same : v.filters ≡ required shared v.filters.since v.filters.until
  pub bucket_ok : get_own (units "bucket") query ≡ some (Json.string (bucket_name v.bucket))
  pub group_ok : get_own (units "group_by") query ≡ group_member v.group_by

shared_of-eq :
    (r : QueryParse LogFilters) {f : LogFilters} → shared_of r ≡ accepted f → r ≡ parsed f
shared_of-eq (failure e) h = absurd (cc)
shared_of-eq (parsed f) h = ap parsed (accepted-injective h)

present-some :
    {A : Type 0} (e : AggregationError) (o : Option A) {a : A}
    → present e o ≡ accepted a
    → o ≡ some a
present-some e none h = absurd (cc)
present-some e (some a) h = ap some (accepted-injective h)

scalar_of-eq :
    (twice other : AggregationError) (o : Option Json) {t : Option Text}
    → scalar_of twice other o ≡ accepted t
    → o ≡ text_member t
scalar_of-eq twice other none h = ap text_member (accepted-injective h)
scalar_of-eq twice other (some (Json.string t)) h = ap text_member (accepted-injective h)
scalar_of-eq twice other (some Json.null) h = absurd (cc)
scalar_of-eq twice other (some (Json.boolean b)) h = absurd (cc)
scalar_of-eq twice other (some (Json.number n)) h = absurd (cc)
scalar_of-eq twice other (some (Json.array xs)) h = absurd (cc)
scalar_of-eq twice other (some (Json.object m)) h = absurd (cc)

bucket_named :
    (t : Text) (c : AggregationBucket) {b : AggregationBucket}
    → text_eq t (bucket_name c) ≡ true
    → ◌≡◌ {A = Option AggregationBucket} (some c) (some b)
    → t ≡ bucket_name b
bucket_named t c e h = text_eq→eq t (bucket_name c) e ∙ ap bucket_name (some-injective _ _ h)

bucket_of-eq : (t : Text) {b : AggregationBucket} → bucket_of t ≡ some b → t ≡ bucket_name b
unfolding bucket_of
bucket_of-eq t {b} =
    if_intro (λ o. o ≡ some b → t ≡ bucket_name b) (text_eq t (units "1m"))
      (bucket_named t one_minute)
      (λ _.
        if_intro (λ o. o ≡ some b → t ≡ bucket_name b) (text_eq t (units "5m"))
          (bucket_named t five_minutes)
          (λ _.
            if_intro (λ o. o ≡ some b → t ≡ bucket_name b) (text_eq t (units "1h"))
              (bucket_named t one_hour)
              (λ _.
                if_intro (λ o. o ≡ some b → t ≡ bucket_name b) (text_eq t (units "1d"))
                  (bucket_named t one_day) (λ _ h. absurd (cc)))))

bucket_of-name : (b : AggregationBucket) → bucket_of (bucket_name b) ≡ some b
unfolding bucket_of
bucket_of-name one_minute = refl
bucket_of-name five_minutes = refl
bucket_of-name one_hour = refl
bucket_of-name one_day = refl

group_named :
    (t : Text) (c : AggregationGroupBy) {g : AggregationGroupBy}
    → text_eq t (group_name c) ≡ true
    → ◌≡◌ {A = Option AggregationGroupBy} (some c) (some g)
    → t ≡ group_name g
group_named t c e h = text_eq→eq t (group_name c) e ∙ ap group_name (some-injective _ _ h)

group_of-eq : (t : Text) {g : AggregationGroupBy} → group_of t ≡ some g → t ≡ group_name g
unfolding group_of
group_of-eq t {g} =
    if_intro (λ o. o ≡ some g → t ≡ group_name g) (text_eq t (units "service"))
      (group_named t by_service)
      (λ _.
        if_intro (λ o. o ≡ some g → t ≡ group_name g) (text_eq t (units "level"))
          (group_named t by_level) (λ _ h. absurd (cc)))

group_of-name : (g : AggregationGroupBy) → group_of (group_name g) ≡ some g
unfolding group_of
group_of-name by_service = refl
group_of-name by_level = refl

read_bucket-eq :
    (query : Members) {b : AggregationBucket}
    → read_bucket (Json.object query) ≡ accepted b
    → get_own (units "bucket") query ≡ some (Json.string (bucket_name b))
unfolding read_bucket read_aggregation_scalar
read_bucket-eq query =
    accepted_elim (scalar_of bucket_duplicate bucket_value (get_own (units "bucket") query)) _
      λ o eo. accepted_elim (present bucket_required o) _ λ t et h.
        scalar_of-eq _ _ _ eo
        ∙ ap text_member (present-some _ _ et ∙ ap some (bucket_of-eq t (present-some _ _ h)))

known_group-eq :
    (o : Option AggregationGroupBy) {r : Option AggregationGroupBy}
    → known_group o ≡ accepted r
    → (g : AggregationGroupBy) × (o ≡ some g) × (r ≡ some g)
known_group-eq none h = absurd (cc)
known_group-eq (some g) h = (g, refl, sym (accepted-injective h))

parse_group-eq :
    (o : Option Text) {g : Option AggregationGroupBy}
    → parse_group o ≡ accepted g
    → text_member o ≡ group_member g
parse_group-eq none h = ap group_member (accepted-injective h)
parse_group-eq (some t) h =
    let (g, e, e') = known_group-eq (group_of t) h in
    ap text_member (ap some (group_of-eq t e)) ∙ ap group_member (sym e')

read_group-eq :
    (query : Members) {g : Option AggregationGroupBy}
    → read_group (Json.object query) ≡ accepted g
    → get_own (units "group_by") query ≡ group_member g
unfolding read_group read_aggregation_scalar
read_group-eq query =
    accepted_elim (scalar_of group_by_duplicate group_by_value (get_own (units "group_by") query)) _
      λ o eo h. scalar_of-eq _ _ _ eo ∙ parse_group-eq o h

read_bucket-name :
    (query : Members) (b : AggregationBucket)
    → get_own (units "bucket") query ≡ some (Json.string (bucket_name b))
    → read_bucket (Json.object query) ≡ accepted b
unfolding read_bucket read_aggregation_scalar
read_bucket-name query b h = rw (h, bucket_of-name b) refl

read_group-name :
    (query : Members) (g : Option AggregationGroupBy)
    → get_own (units "group_by") query ≡ group_member g
    → read_group (Json.object query) ≡ accepted g
unfolding read_group read_aggregation_scalar
read_group-name query none h = rw h refl
read_group-name query (some g) h = rw h (ap known_group (group_of-name g))

describes :
    (query : Members) (v : ParsedLogAggregationQuery)
    → parse_log_aggregation_query (Json.object query) ≡ accepted v
    → IsDescribed query v
unfolding parse_log_aggregation_query shared_filters
describes query v = accepted_elim (shared_of (parse_log_filters (Json.object query))) _ λ f ef.
    accepted_elim (present since_required f.since) _ λ since es.
      accepted_elim (present until_required f.until) _ λ until eu.
        accepted_elim (read_bucket (Json.object query)) _ λ b eb.
          accepted_elim (read_group (Json.object query)) _ λ g eg h.
            subst (IsDescribed query) (accepted-injective h) (record {
              shared = f;
              filters_ok = shared_of-eq _ ef;
              since_ok = present-some _ _ es;
              until_ok = present-some _ _ eu;
              same = refl;
              bucket_ok = read_bucket-eq query eb;
              group_ok = read_group-eq query eg;
            })

accepts :
    (query : Members) (v : ParsedLogAggregationQuery)
    → IsDescribed query v
    → parse_log_aggregation_query (Json.object query) ≡ accepted v
unfolding parse_log_aggregation_query shared_filters
accepts query v d =
    rw
      (
        d.filters_ok,
        d.since_ok,
        d.until_ok,
        read_bucket-name query v.bucket d.bucket_ok,
        read_group-name query v.group_by d.group_ok,
      )
      (ap (λ f. accepted (record { filters = f; bucket = v.bucket; group_by = v.group_by }))
        (sym d.same))

-- A query is accepted as an aggregation exactly when it is described by it: its filters are accepted and have both ends of the range, its bucket is the name of the bucket, and its group is absent or the name of the group.
pub parse_log_aggregation_query-IsDescribed_iff :
    (query : Members) (v : ParsedLogAggregationQuery)
    → (parse_log_aggregation_query (Json.object query) ≡ accepted v) ↔ IsDescribed query v
parse_log_aggregation_query-IsDescribed_iff query v = (describes query v, accepts query v)
