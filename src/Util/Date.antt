-- ===== src/Util/Date.antt =====
-- `getJulianDayNumber`, `getYearMonthDay` and `Date` of src/util/unp_date.cpp and src/util/unp_date.h, in the years from 1 on and
-- with the months 1 to 12, where no subtraction comes below zero. A `none` says that an int overflows.
pub mod Formula
pub mod Calendar
pub mod Order
pub mod Days
mod Tests
use unp.Base.{ℕ, ◌+◌, ◌-◌, ◌*◌, ◌/◌, ◌^◌, Bool, ltb, ◌==◌, Option, none, some, if◌then◌else◌}
use unp.Buffer.Chain.{◌>>=◌}

pub record YearMonthDay : Type 0 where
  pub year : ℕ
  pub month : ℕ
  pub day : ℕ

-- What an int holds; an overflow is a fault.
unfoldable pub int : ℕ → Option ℕ
int n = if ltb n (2 ^ 31) then some n else none

-- `getJulianDayNumber`, whose sums are in the order of the source.
unfoldable pub get_julian_day_number : ℕ → ℕ → ℕ → Option ℕ
get_julian_day_number year month day = do
  let a = (14 - month) / 12
  y0 ← int (year + 4800)
  let y = y0 - a
  let m = month + 12 * a - 3
  p ← int (153 * m + 2)
  q ← int (y * 365)
  s ← int (day + p / 5 + q)
  s' ← int (s + y / 4)
  n ← int (s' - y / 100 + y / 400)
  some (n - 32045)

-- `getYearMonthDay`
unfoldable pub get_year_month_day : ℕ → Option YearMonthDay
get_year_month_day julian_day_number = do
  a ← int (julian_day_number + 32044)
  p ← int (4 * a + 3)
  let b = p / 146097
  q ← int (b * 146097)
  let c = a - q / 4
  r ← int (4 * c + 3)
  let d = r / 1461
  s ← int (1461 * d)
  let e = c - s / 4
  t ← int (5 * e + 2)
  let m = t / 153
  u ← int (153 * m + 2)
  some (record {
    day = e - u / 5 + 1;
    month = m + 3 - 12 * (m / 10);
    year = b * 100 + d - 4800 + m / 10;
  })

-- `Date`, which keeps the Julian day number.
pub record Date : Type 0 where
  pub julian_day_number : ℕ

unfoldable pub date : ℕ → ℕ → ℕ → Option Date
date y m d = do n ← get_julian_day_number y m d; some (record { julian_day_number = n })

abbrev pub year_month_day : Date → Option YearMonthDay
year_month_day x = get_year_month_day x.julian_day_number

abbrev pub earlier : Date → Date → Bool
earlier x y = ltb x.julian_day_number y.julian_day_number

abbrev pub same_day : Date → Date → Bool
same_day x y = x.julian_day_number == y.julian_day_number
