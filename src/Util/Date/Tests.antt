-- ===== src/Util/Date/Tests.antt =====
-- Days around the leap day of 2024.
use unp.Base.{◌≡◌, refl, arith, some}
use unp.Buffer.Chain.{◌>>=◌}
use unp.Util.Date.{
  YearMonthDay, Date, int, get_julian_day_number, get_year_month_day, date, year_month_day, earlier,
}
use unp.Util.Date.Calendar.{IsDate, year_month_day_lem}
use unp.Util.Date.Order.{before, earlier-before}
use unp.Util.Date.Days.{get_year_month_day-IsDate}

abbrev leap_day : YearMonthDay
leap_day = record { year = 2024; month = 2; day = 29 }

abbrev new_year : YearMonthDay
new_year = record { year = 2025; month = 1; day = 1 }

leap_day-IsDate : IsDate leap_day
leap_day-IsDate = record {
  year_from = omega arith;
  month_from = omega arith;
  month_to = omega arith;
  day_from = omega arith;
  day_to = omega arith;
}

new_year-IsDate : IsDate new_year
new_year-IsDate = record {
  year_from = omega arith;
  month_from = omega arith;
  month_to = omega arith;
  day_from = omega arith;
  day_to = omega arith;
}

leap_day_number : get_julian_day_number 2024 2 29 ≡ some 2460370
unfolding get_julian_day_number int
leap_day_number = refl

year_month_day_lem_example : (do x ← date 2024 2 29; year_month_day x) ≡ some leap_day
year_month_day_lem_example = year_month_day_lem leap_day leap_day-IsDate (omega arith)

earlier-before_example :
    (x : Date) × (y : Date) × (date 2024 2 29 ≡ some x)
    × (date 2025 1 1 ≡ some y)
    × (earlier x y ≡ before leap_day new_year)
earlier-before_example =
    earlier-before leap_day new_year leap_day-IsDate new_year-IsDate (omega arith) (omega arith)

get_year_month_day-IsDate_example :
    (t : YearMonthDay) × (get_year_month_day 2460370 ≡ some t)
    × IsDate t
    × (get_julian_day_number t.year t.month t.day ≡ some 2460370)
get_year_month_day-IsDate_example = get_year_month_day-IsDate 2460370 (omega arith) (omega arith)
