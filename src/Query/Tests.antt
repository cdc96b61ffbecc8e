-- ===== src/Query/Tests.antt =====
-- A table of two rows that is read in pages of one, with a digest of zeros, and the theorems at it.
use log_stream.Base.{
  ◌+◌, ◌≡◌, refl, true, false, List, [], ◌∷◌, some, none, replicate, take, arith, Bool, ◌==◌,
  if◌then◌else◌, is_empty, false, length,
}
use log_stream.Base.Bytes.{Bytes}
use log_stream.Base.Number.{Number, nan}
use log_stream.Base.Text.{Text, units, text_lt}
use log_stream.Domain.LogEntry.{info}
use log_stream.Domain.Calendar.{
  is_leap_year, days_in_month, day_from_year, days_before_month, make_day, year_search,
  year_from_day, month_search, civil_from_day,
}
use log_stream.Domain.Json.{Json, Members, member, no_members, get_own}
use log_stream.Domain.Timestamp.{is_date, date_parse, parse_fast, parse_canonical_timestamp}
use log_stream.Domain.Timestamp.Print.{local_time, iso_year, to_iso_string}
use log_stream.Domain.Timestamp.Scan.{
  expect, two_digits, four_digits, two_then, four_then, scan_date_time, scan_milliseconds,
  match_canonical,
}
use log_stream.Query.Result.{parsed}
use log_stream.Query.Sorting.{sort}
use log_stream.Query.Parameters.{
  LogFilters, ParsedLogListQuery, read_scalar, refuse_nul, parse_level, to_timestamp,
  parse_optional_timestamp, is_reversed, check_range, starts_with, keys_of, attribute_names,
  parse_attributes, parse_attribute_filters, parse_filters, query_of, parse_log_filters, all_digits,
  read_limit, parse_limit, check_cursor, parse_log_list_query,
}
use log_stream.Query.Patterns.{fits, is_uuid_v4, is_sha_256_hex}
use log_stream.Query.Predicate.{like_pattern}
use log_stream.Query.Predicate.Like.{any_end, one_unit, IsLike, contains, like_pattern-IsLike}
use log_stream.Query.Cursor.{LogCursorPosition, is_canonical, encode_log_cursor, decode_log_cursor}
use log_stream.Query.Cursor.Exact.{decode_log_cursor-eq}
use log_stream.Query.Cursor.RoundTrip.{IsPosition, decode_log_cursor-encode}
use log_stream.Query.Repository.{
  ApiLogResponseItem, LogQueryPageRequest, PageResult, page, build_page_query,
}
use log_stream.Query.Repository.Injection.{build_page_query-SameShape}
use log_stream.Query.Paging.{Behind, rows_behind, fetch_all}
use log_stream.Query.Paging.Rows.{fetch_all-rows}

abbrev digest : Bytes → Text
digest bytes = replicate 64 b'0'

abbrev number_text_of : Number → Text
number_text_of n = units "0"

abbrev number_of_text : Text → Number
number_of_text t = nan

abbrev newer : LogCursorPosition
newer = record {
  timestamp = units "2024-05-01T12:00:00.000Z";
  id = units "00000000-0000-4000-8000-000000000001";
}

abbrev older : LogCursorPosition
older = record {
  timestamp = units "2024-04-01T12:00:00.000Z";
  id = units "00000000-0000-4000-8000-000000000002";
}

abbrev row_at : LogCursorPosition → ApiLogResponseItem
row_at p = record {
  id = p.id;
  timestamp = p.timestamp;
  level = info;
  service = units "api";
  message = units "up";
  attributes = [];
}

abbrev table : List ApiLogResponseItem
table = row_at newer ∷ row_at older ∷ []

abbrev is_behind : Behind
is_behind p row = text_lt row.timestamp p.timestamp

abbrev find_in : LogQueryPageRequest → PageResult
find_in request = page (take (request.limit + 1) (rows_behind is_behind request.cursor table))

abbrev query : Members
query = member (units "limit") (Json.string (units "1")) no_members

abbrev no_filters : LogFilters
no_filters = record {
  service = none;
  level = none;
  since = none;
  until = none;
  attributes = [];
  q = none;
}

abbrev parsed_query : ParsedLogListQuery
parsed_query = record { filters = no_filters; limit = 1; cursor = none }

parsed_query-eq : parse_log_list_query (Json.object query) ≡ parsed parsed_query
unfolding parse_log_list_query parse_log_filters query_of parse_filters read_scalar refuse_nul
    parse_level parse_optional_timestamp to_timestamp check_range is_reversed
    parse_attribute_filters attribute_names parse_attributes keys_of starts_with sort parse_limit
    read_limit all_digits check_cursor get_own
parsed_query-eq = refl

digest-hex : (bytes : Bytes) → is_sha_256_hex (digest bytes) ≡ true
unfolding is_sha_256_hex fits
digest-hex bytes = refl

newer-IsPosition : IsPosition newer
unfolding is_uuid_v4 fits is_canonical parse_canonical_timestamp match_canonical scan_milliseconds
    scan_date_time four_then two_then four_digits two_digits expect parse_fast date_parse is_date
    days_in_month is_leap_year local_time to_iso_string iso_year make_day day_from_year
    days_before_month civil_from_day year_from_day year_search month_search
newer-IsPosition = record { id_ok = refl; timestamp_ok = refl }

older-IsPosition : IsPosition older
unfolding is_uuid_v4 fits is_canonical parse_canonical_timestamp match_canonical scan_milliseconds
    scan_date_time four_then two_then four_digits two_digits expect parse_fast date_parse is_date
    days_in_month is_leap_year local_time to_iso_string iso_year make_day day_from_year
    days_before_month civil_from_day year_from_day year_search month_search
older-IsPosition = record { id_ok = refl; timestamp_ok = refl }

fetch_all-rows_example :
    fetch_all digest number_text_of number_of_text find_in 3 query none ≡ some table
fetch_all-rows_example =
    fetch_all-rows digest number_text_of number_of_text find_in is_behind table query parsed_query 3
      digest-hex parsed_query-eq refl (newer-IsPosition, (older-IsPosition, tt))
      ((refl, tt), (refl, (refl, tt)), (tt, (refl, tt), tt)) (λ start. refl) (omega arith)

decode_log_cursor-encode_example :
    decode_log_cursor digest number_text_of number_of_text
      (encode_log_cursor digest number_text_of number_of_text newer no_filters)
      no_filters
    ≡ some newer
decode_log_cursor-encode_example =
    decode_log_cursor-encode digest number_text_of number_of_text newer no_filters digest-hex
      newer-IsPosition

decode_log_cursor-eq_example :
    encode_log_cursor digest number_text_of number_of_text newer no_filters
    ≡ encode_log_cursor digest number_text_of number_of_text newer no_filters
decode_log_cursor-eq_example =
    decode_log_cursor-eq digest number_text_of number_of_text
      (encode_log_cursor digest number_text_of number_of_text newer no_filters) no_filters newer
      decode_log_cursor-encode_example

-- A matcher, with the escape pending or not.
unfoldable like_from : Bool → Text → Text → Bool
like_from true [] t = false
like_from true (c ∷ ps) t = one_unit (λ x. x == c) (like_from false ps) t
like_from false [] t = is_empty t
like_from false (p ∷ ps) t =
    let plain = one_unit (λ x. x == p) (like_from false ps) t in
    let any_unit = one_unit (λ x. true) (like_from false ps) t in
    let any_text = any_end (like_from false ps) t in
    let quoted = like_from true ps t in
    if p == b'%'
    then any_text
    else if p == b'_'
    then any_unit
    else if p == 92
    then quoted
    else plain

like_from-IsLike : IsLike (λ c x. x == c) (like_from false)
unfolding like_from
like_from-IsLike = record {
  at_end = λ t. refl;
  any_text = λ ps t. refl;
  quoted = λ c ps t. refl;
  plain = λ c ps t h.
      let (e, f, g) : ((c == b'%') ≡ false) × ((c == b'_') ≡ false) × ((c == 92) ≡ false) =
        ground arith in
      rw (e, f, g) refl;
}

like_pattern-IsLike_example :
    like_from false (like_pattern (units "5%_\\")) (units "up 5%_\\ now")
    ≡ contains (λ c x. x == c) (units "5%_\\") (units "up 5%_\\ now")
like_pattern-IsLike_example =
    like_pattern-IsLike (λ c x. x == c) (like_from false) like_from-IsLike (units "5%_\\")
      (units "up 5%_\\ now")

abbrev searching : Text → Text → LogFilters
searching service q = record no_filters { service = some service; q = some q }

abbrev searched : Text → Text → LogQueryPageRequest
searched service q = record { filters = searching service q; limit = 5; cursor = some newer }

build_page_query-SameShape_example :
    ((build_page_query (searched (units "api") (units "x"))).text
      ≡ (build_page_query (searched (units "' OR 1=1 --") (units "';"))).text)
    × (length (build_page_query (searched (units "api") (units "x"))).values
        ≡ length (build_page_query (searched (units "' OR 1=1 --") (units "';"))).values)
build_page_query-SameShape_example =
    build_page_query-SameShape (searched (units "api") (units "x"))
      (searched (units "' OR 1=1 --") (units "';"))
      (record {
        service = refl;
        level = refl;
        since = refl;
        until = refl;
        attributes = refl;
        q = refl;
      })
      refl
