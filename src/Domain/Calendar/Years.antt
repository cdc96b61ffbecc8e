-- ===== src/Domain/Calendar/Years.antt =====
-- The year of a day.
use log_stream.Base.{ℕ, zero, suc, ◌+◌, ◌*◌, ◌/◌, ◌≤◌, ◌<◌, ◌≡◌, arith, if◌then◌else◌}
use log_stream.Domain.Calendar.{is_leap_year, day_from_year, year_search, year_from_day}

-- A year has 366 days if it is a leap year and 365 if not.
pub day_from_year-suc :
    (y : ℕ) → day_from_year (y + 1) ≡ day_from_year y + (if is_leap_year y then 366 else 365)
unfolding day_from_year is_leap_year
day_from_year-suc y = ground arith

day_from_year_bounds : (y : ℕ) → (365 * y ≤ day_from_year y) × (day_from_year y ≤ 366 * y)
unfolding day_from_year
day_from_year_bounds y = omega arith

pub day_from_year_mono : (a b : ℕ) → a ≤ b → day_from_year a ≤ day_from_year b
unfolding day_from_year
day_from_year_mono a b h = omega arith

-- Within a year's span the search stays; before it, it goes on.
year_search-year :
    (fuel y c d : ℕ)
    → c ≤ y
    → y < c + fuel
    → day_from_year y ≤ d
    → d < day_from_year (y + 1)
    → year_search fuel c d ≡ y
unfolding year_search
year_search-year zero y c d h k lo hi = absurd (omega arith)
year_search-year (suc fuel) y c d h k lo hi =
    ground (arith, day_from_year_mono (c + 1) y, year_search-year fuel y (c + 1) d)

-- The year of a day is the one whose span the day is in.
pub year_from_day-eq :
    (y d : ℕ) → day_from_year y ≤ d → d < day_from_year (y + 1) → year_from_day d ≡ y
unfolding year_from_day
year_from_day-eq y d lo hi =
    year_search-year (d + 1) y (d / 366) d (omega (arith, day_from_year_bounds (y + 1)))
      (omega (arith, day_from_year_bounds y)) lo hi
