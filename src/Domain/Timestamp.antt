-- ===== src/Domain/Timestamp.antt =====
-- src/domain/timestamp.ts. A time is a number of milliseconds from the start of the year -400
-- (Domain/Calendar), so `wholeSecondMs` here is the source's plus a constant, a whole number of days.
pub mod Scan
pub mod Print
pub mod ScanLaws
pub mod IsoLaws
pub mod FastPath
pub mod Plain
mod Tests
use log_stream.Base.{
  ℕ, zero, suc, ◌+◌, ◌-◌, ◌*◌, ◌/◌, ◌%◌, max, Bool, true, false, not, ◌&&◌, ◌||◌, List, [], ◌∷◌,
  ◌++◌, Option, none, some, ltb, leb, ◌==◌, if◌then◌else◌, length, is_empty, take, drop,
}
use log_stream.Base.Text.{Text, text_eq, text_lt, pad_end}
use log_stream.Domain.Calendar.{days_in_month}
use Scan.{DateTime, Zone, utc, offset, Match, match_timestamp, match_canonical}
use Print.{local_time, to_iso_string, strip_zero_ms, pad3}

pub record ParsedTimestamp : Type 0 where
  pub canonical : Text
  pub whole_second_ms : ℕ
  pub fraction : Text

pub data ParseResult : Type 0 where
  ok : ParsedTimestamp → ParseResult
  grammar components : ParseResult

-- `replace(/0+$/, "")`.
unfoldable pub strip_zeros : Text → Text
strip_zeros [] = []
strip_zeros (x ∷ xs) =
    let rest = strip_zeros xs in if x == b'0' && is_empty rest then [] else x ∷ rest

unfoldable pub format_canonical_fraction : Text → Text
format_canonical_fraction fraction =
    let padded = pad_end 3 b'0' fraction in take 3 padded ++ strip_zeros (drop 3 padded)

pub data Order : Type 0 where
  less equal greater : Order

unfoldable pub compare_fractions : Text → Text → Order
compare_fractions left right =
    let width = max (length left) (length right) in
    if text_lt (pad_end width b'0' left) (pad_end width b'0' right)
    then less
    else if text_lt (pad_end width b'0' right) (pad_end width b'0' left)
    then greater
    else equal

-- The test of the month and the day.
unfoldable pub is_date : DateTime → Bool
is_date f =
    not (ltb f.month 1 || ltb 12 f.month || ltb f.day 1)
    && leb f.day (days_in_month (f.year + 400) f.month)

-- The value of a run of digits.
abbrev pub number_from : ℕ → Text → ℕ
number_from n [] = n
number_from n (c ∷ t) = number_from (n * 10 + (c - 48)) t

-- `Date.parse` of a text that the fast path's pattern matches, and `none` for NaN. The end of a day
-- may be written 24:00:00.000.
unfoldable pub date_parse : DateTime → ℕ → Option ℕ
date_parse f ms =
    let end = f.hour == 24 && f.minute == 0 && f.second == 0 && ms == 0 in
    if is_date f && (end || leb f.hour 23) && leb f.minute 59 && leb f.second 59
    then some (local_time f + ms)
    else none

unfoldable pub parse_fast : Text → DateTime → Text → ParseResult
parse_fast value f fraction = elim (date_parse f (number_from 0 fraction)) [
  | none ↦ components
  | some epoch_ms ↦
      if not (text_eq (to_iso_string epoch_ms) value)
      then components
      else ok (record {
        canonical = value;
        whole_second_ms = epoch_ms / 1000 * 1000;
        fraction = fraction;
      })
]

unfoldable pub is_offset : Zone → Bool
is_offset utc = true
is_offset (offset east hour minute) =
    not (ltb 14 hour || ltb 59 minute || (hour == 14 && not (minute == 0)))

-- `localDate.getTime() - offsetMinutes * 60_000`.
unfoldable pub shift_zone : Zone → ℕ → ℕ
shift_zone utc t = t
shift_zone (offset true hour minute) t = t - (hour * 60 + minute) * 60000
shift_zone (offset false hour minute) t = t + (hour * 60 + minute) * 60000

unfoldable pub is_date_time : DateTime → Bool
is_date_time f = is_date f && leb f.hour 23 && leb f.minute 59 && leb f.second 59

unfoldable pub parse_match : Match → ParseResult
parse_match m =
    let whole_second_ms = shift_zone m.zone (local_time m.fields) in
    if not (is_date_time m.fields)
    then components
    else if not (is_offset m.zone)
    then components
    else ok (record {
      canonical =
          strip_zero_ms (to_iso_string whole_second_ms)
          ++ (b'.' ∷ (format_canonical_fraction m.fraction ++ (b'Z' ∷ [])));
      whole_second_ms = whole_second_ms;
      fraction = m.fraction;
    })

-- The part behind the fast path.
unfoldable pub parse_general : Text → ParseResult
parse_general value = elim (match_timestamp value) [ none ↦ grammar | some m ↦ parse_match m ]

unfoldable pub parse_canonical_timestamp : Text → ParseResult
parse_canonical_timestamp value = elim (match_canonical value) [
  | some (f, fraction) ↦ parse_fast value f fraction
  | none ↦ parse_general value
]

unfoldable pub compare_parsed_timestamps : ParsedTimestamp → ParsedTimestamp → Order
compare_parsed_timestamps left right =
    if ltb left.whole_second_ms right.whole_second_ms
    then less
    else if ltb right.whole_second_ms left.whole_second_ms
    then greater
    else compare_fractions left.fraction right.fraction

abbrev is_greater : Order → Bool
is_greater greater = true
is_greater _ = false

-- The limit is a whole number of milliseconds below 1000 past its second.
unfoldable pub is_parsed_timestamp_after_epoch_milliseconds : ParsedTimestamp → ℕ → Bool
is_parsed_timestamp_after_epoch_milliseconds timestamp limit_ms =
    let limit_second = limit_ms / 1000 * 1000 in
    if not (timestamp.whole_second_ms == limit_second)
    then ltb limit_second timestamp.whole_second_ms
    else is_greater (compare_fractions timestamp.fraction (pad3 (limit_ms - limit_second)))
