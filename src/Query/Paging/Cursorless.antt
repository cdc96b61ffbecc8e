-- ===== src/Query/Paging/Cursorless.antt =====
-- src/modules/query/query-parameter-parser.ts: a cursor changes nothing but the cursor.
use log_stream.Base.{
  ◌≡◌, refl, Bool, true, false, List, [], ◌∷◌, some, All, keep_if, if_intro, is_empty, drop, arith,
  Bool-cases, inl, inr,
}
use log_stream.Base.Text.{Text, text_eq, text_lt, units}
use log_stream.Domain.Json.{Json, Members, member, get_own}
use log_stream.Query.Result.{
  parsed, ◌>>=◌, parsed_elim, parsed-injective, attribute_duplicate, attribute_string,
  attribute_value_nul, cursor_duplicate, cursor_value,
}
use log_stream.Query.Sorting.{place, sort}
use log_stream.Query.Parameters.{
  ParsedLogListQuery, read_scalar, refuse_nul, check_key, push_attribute, parse_optional_timestamp,
  starts_with, attribute_prefix, keys_of, attribute_names, parse_attributes,
  parse_attribute_filters, parse_filters, query_of, parse_log_filters, parse_limit, check_cursor,
  parse_log_list_query,
}

keep_if-All : (test : Text → Bool) (xs : List Text) → All (λ x. test x ≡ true) (keep_if test xs)
keep_if-All test [] = tt
keep_if-All test (x ∷ xs) = elim (Bool-cases (test x)) [
  | inl e ↦ rw e (e, keep_if-All test xs)
  | inr e ↦ rw e (keep_if-All test xs)
]

place-All :
    {A : Type 0} (P : A → Type 0) (before : A → A → Bool) (x : A) (xs : List A)
    → P x
    → All P xs
    → All P (place before x xs)
unfolding place
place-All P before x [] p ps = (p, tt)
place-All P before x (y ∷ ys) p (q, qs) =
    if_intro (All P) (before y x) (λ _. (q, place-All P before x ys p qs)) (λ _. (p, (q, qs)))

pub sort-All :
    {A : Type 0} (P : A → Type 0) (before : A → A → Bool) (xs : List A)
    → All P xs
    → All P (sort before xs)
unfolding sort
sort-All P before [] ps = tt
sort-All P before (x ∷ xs) (p, ps) =
    place-All P before x (sort before xs) p (sort-All P before xs ps)

abbrev IsAttributeName : Text → Type 0
IsAttributeName name = starts_with attribute_prefix name ≡ true

attribute_names-All : (query : Members) → All IsAttributeName (attribute_names query)
unfolding attribute_names
attribute_names-All query =
    sort-All IsAttributeName text_lt _ (keep_if-All (starts_with attribute_prefix) (keys_of query))

not_cursor : (name : Text) → IsAttributeName name → text_eq (units "cursor") name ≡ false
unfolding starts_with
not_cursor [] h = refl
not_cursor (x ∷ t) h = ground arith

read_scalar-cursor :
    (name cursor : Text) (query : Members)
    → IsAttributeName name
    → read_scalar name attribute_duplicate attribute_string
        (member (units "cursor") (Json.string cursor) query)
      ≡ read_scalar name attribute_duplicate attribute_string query
unfolding read_scalar get_own
read_scalar-cursor name cursor query h = rw (not_cursor name h)

parse_attributes-cursor :
    (names : List Text) (cursor : Text) (query : Members)
    → All IsAttributeName names
    → parse_attributes names (member (units "cursor") (Json.string cursor) query)
      ≡ parse_attributes names query
unfolding parse_attributes
parse_attributes-cursor [] cursor query h = refl
parse_attributes-cursor (name ∷ names) cursor query (h, k) = λ i. do
  key ← check_key (drop 5 name)
  scalar ← read_scalar-cursor name cursor query h i
  value ← refuse_nul attribute_value_nul scalar
  later ← parse_attributes-cursor names cursor query k i
  parsed (push_attribute key value later)

attribute_names-cursor :
    (cursor : Text) (query : Members)
    → attribute_names (member (units "cursor") (Json.string cursor) query) ≡ attribute_names query
unfolding attribute_names keys_of starts_with
attribute_names-cursor cursor query = refl

parse_attribute_filters-cursor :
    (cursor : Text) (query : Members)
    → parse_attribute_filters (member (units "cursor") (Json.string cursor) query)
      ≡ parse_attribute_filters query
unfolding parse_attribute_filters
parse_attribute_filters-cursor cursor query =
    rw (attribute_names-cursor cursor query)
      (parse_attributes-cursor (attribute_names query) cursor query (attribute_names-All query))

parse_filters-cursor :
    (cursor : Text) (query : Members)
    → parse_filters (member (units "cursor") (Json.string cursor) query) ≡ parse_filters query
unfolding parse_filters read_scalar get_own parse_optional_timestamp
parse_filters-cursor cursor query = rw (parse_attribute_filters-cursor cursor query)

-- A query without a cursor, and the same query with one that is not empty.
pub parse_log_list_query-cursor :
    (query : Members) (cursor : Text) (v : ParsedLogListQuery)
    → is_empty cursor ≡ false
    → parse_log_list_query (Json.object query) ≡ parsed v
    → parse_log_list_query (Json.object (member (units "cursor") (Json.string cursor) query))
      ≡ parsed (record v { cursor = some cursor })
unfolding parse_log_list_query parse_log_filters query_of parse_limit read_scalar get_own
    check_cursor
parse_log_list_query-cursor query cursor v full = parsed_elim (parse_filters query) _ λ f ef.
    parsed_elim (parse_limit query) _ λ n en.
      parsed_elim (read_scalar (units "cursor") cursor_duplicate cursor_value query) _ λ c ec.
        parsed_elim (check_cursor c) _ λ d ed h.
          let same = parsed-injective h in
          rw (parse_filters-cursor cursor query, ef, en, full) (cc same)
