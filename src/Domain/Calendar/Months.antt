-- ===== src/Domain/Calendar/Months.antt =====
-- The month of a day within a year, and dates as days.
use log_stream.Base.{
  ℕ, zero, suc, ◌+◌, ◌-◌, ◌≤◌, ◌<◌, ◌≡◌, refl, ap, true, false, inl, inr, arith, ltb, ◌==◌,
  if◌then◌else◌, Bool-cases,
}
use native.Mathlib.Nat.{add-zero, add-suc}
use native.Mathlib.Numerals.{add-one}
use log_stream.Domain.Calendar.{
  is_leap_year, days_in_month, days_before_month, day_from_year, make_day, month_search,
  civil_from_day, Civil, year_from_day,
}
use log_stream.Domain.Calendar.Years.{day_from_year-suc, year_from_day-eq}

-- The test that `parseCanonicalTimestamp` makes of a date.
pub record IsDate (c : Civil) : Type 0 where
  pub month_in : (1 ≤ c.month) × (c.month ≤ 12)
  pub day_in : (1 ≤ c.day) × (c.day ≤ days_in_month c.year c.month)

year_days : (y : ℕ) → days_before_month y 13 ≡ (if is_leap_year y then 366 else 365)
unfolding days_before_month days_in_month
year_days y = ground arith

before_one : (y : ℕ) → days_before_month y 1 ≡ 0
unfolding days_before_month
before_one y = refl

before_suc :
    (y m : ℕ) → 1 ≤ m → days_before_month y (m + 1) ≡ days_before_month y m + days_in_month y m
unfolding days_before_month
before_suc y zero h = elim h [ ]
before_suc y (suc m) h = rw (add-one (suc m))

before_mono : (y m k : ℕ) → 1 ≤ m → days_before_month y m ≤ days_before_month y (m + k)
before_mono y m zero h = rw (add-zero m) (omega arith)
before_mono y m (suc k) h =
    rw (add-suc m k, ← add-one (m + k)) (omega (arith, before_mono y m k h, before_suc y (m + k)))

-- The days of a month lie before the first of every later month.
month_ends :
    (y m n : ℕ) → 1 ≤ m → m < n → days_before_month y m + days_in_month y m ≤ days_before_month y n
month_ends y m n h k =
    let e : m + 1 + (n - (m + 1)) ≡ n = omega arith in
    omega (arith, before_suc y m h, before_mono y (m + 1) (n - (m + 1)), ap (days_before_month y) e)

-- The search, `rounds` months before the end, from month m with `left` days after its start.
month_search-eq :
    (rounds y m month day left : ℕ)
    → 1 ≤ m
    → m ≤ month
    → month < m + rounds
    → 1 ≤ day
    → day ≤ days_in_month y month
    → left + days_before_month y m ≡ days_before_month y month + (day - 1)
    → month_search rounds y m left ≡ (month, day)
unfolding month_search
month_search-eq zero y m month day left h1 h2 h3 h4 h5 e = absurd (omega arith)
month_search-eq (suc rounds) y m month day left h1 h2 h3 h4 h5 e = elim (Bool-cases (m == month)) [
  | inl same ↦
      let k : m ≡ month = ground arith in
      let l : left ≡ day - 1 = omega (arith, ap (days_before_month y) k) in
      let t : ltb left (days_in_month y m) ≡ true = ground (arith, ap (days_in_month y) k) in
      rw t (ground (arith, k, l))
  | inr other ↦
      let k : m < month = ground arith in
      let t : ltb left (days_in_month y m) ≡ false = ground (arith, month_ends y m month h1 k) in
      rw t (
        month_search-eq rounds y (m + 1) month day (left - days_in_month y m) (omega arith)
          (omega arith) (omega arith) h4 h5
          (ground (arith, month_ends y m month h1 k, before_suc y m h1)))
]

-- The calendar fields of the day of a date are those of the date.
pub civil_from_day-make_day :
    (c : Civil) → IsDate c → civil_from_day (make_day c.year c.month c.day) ≡ c
unfolding civil_from_day make_day
civil_from_day-make_day c v =
    let d = day_from_year year + days_before_month year month + (day - 1) in
    let ends = month_ends year month 13 v.month_in.0 (omega (arith, v.month_in.1)) in
    let y : year_from_day d ≡ year =
      year_from_day-eq year d (omega arith)
        (omega (arith, day_from_year-suc year, year_days year, ends)) in
    let m : month_search 12 year 1 (d - day_from_year year) ≡ (month, day) =
      month_search-eq 12 year 1 month day (d - day_from_year year) (omega arith) v.month_in.0
        (omega arith) v.day_in.0 v.day_in.1 (omega (arith, before_one year)) in
    rw y (rw m)
  where
    open c use {year, month, day}
