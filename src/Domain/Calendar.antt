-- ===== src/Domain/Calendar.antt =====
-- What src/domain/timestamp.ts uses of the ECMAScript `Date`: time values and their calendar fields.
-- Times are counted in milliseconds, and days, from the start of the year -400, so that none of
-- them is negative; the year y is the number y + 400. The calendar repeats after 400 years.
pub mod Years
pub mod Months
use log_stream.Base.{
  ℕ, zero, suc, ◌+◌, ◌-◌, ◌*◌, ◌/◌, ◌%◌, Bool, not, ◌&&◌, ◌||◌, leb, ltb, ◌==◌, if◌then◌else◌,
}

-- `isLeapYear` and `daysInMonth`, at a year y + 400 or y alike.
unfoldable pub is_leap_year : ℕ → Bool
is_leap_year year = year % 4 == 0 && (not (year % 100 == 0) || year % 400 == 0)

unfoldable pub days_in_month : ℕ → ℕ → ℕ
days_in_month year month =
    if month == 2
    then (if is_leap_year year then 29 else 28)
    else if month == 4 || month == 6 || month == 9 || month == 11
    then 30
    else 31

-- `DayFromYear`: the days before the first of January.
unfoldable pub day_from_year : ℕ → ℕ
day_from_year year = 365 * year + (year + 3) / 4 - (year + 99) / 100 + (year + 399) / 400

-- The days of a year before the first of a month.
unfoldable pub days_before_month : ℕ → ℕ → ℕ
days_before_month year zero = 0
days_before_month year (suc zero) = 0
days_before_month year (suc (suc m)) = days_before_month year (suc m) + days_in_month year (suc m)

-- `MakeDay`, for a month from 1 on.
unfoldable pub make_day : ℕ → ℕ → ℕ → ℕ
make_day year month day = day_from_year year + days_before_month year month + (day - 1)

-- `YearFromTime`: the largest year that starts on or before the day; the search goes up from a year
-- that does.
unfoldable pub year_search : ℕ → ℕ → ℕ → ℕ
year_search zero year day = year
year_search (suc fuel) year day =
    let later = year_search fuel (year + 1) day in
    if leb (day_from_year (year + 1)) day then later else year

unfoldable pub year_from_day : ℕ → ℕ
year_from_day day = year_search (day + 1) (day / 366) day

-- `MonthFromTime` and `DateFromTime`, from the day within the year: the rounds left and the month.
unfoldable pub month_search : ℕ → ℕ → ℕ → ℕ → ℕ × ℕ
month_search zero year month left = (month, left + 1)
month_search (suc rounds) year month left =
    let later = month_search rounds year (month + 1) (left - days_in_month year month) in
    if ltb left (days_in_month year month) then (month, left + 1) else later

pub record Civil : Type 0 where
  pub year : ℕ
  pub month : ℕ
  pub day : ℕ

unfoldable pub civil_from_day : ℕ → Civil
civil_from_day d =
    let year = year_from_day d in
    let (month, day) = month_search 12 year 1 (d - day_from_year year) in
    record { year = year; month = month; day = day }
