-- ===== src/Util/Date/Formula.antt =====
-- The formulas of src/util/unp_date.cpp over numbers without a bound, and where an int holds what they compute.
use unp.Base.{ℕ, ◌+◌, ◌-◌, ◌*◌, ◌/◌, ◌^◌, ◌≤◌, ◌<◌, ◌≡◌, refl, some, arith, lt→ltb}
use unp.Buffer.Chain.{◌>>=◌}
use unp.Util.Date.{YearMonthDay, int, get_julian_day_number, get_year_month_day}

unfoldable pub day_number : ℕ → ℕ → ℕ → ℕ
day_number year month day =
    let a = (14 - month) / 12 in
    let y = year + 4800 - a in
    let m = month + 12 * a - 3 in
    day + (153 * m + 2) / 5 + y * 365 + y / 4 - y / 100 + y / 400 - 32045

unfoldable pub calendar_date : ℕ → YearMonthDay
calendar_date number =
    let a = number + 32044 in
    let b = (4 * a + 3) / 146097 in
    let c = a - (b * 146097) / 4 in
    let d = (4 * c + 3) / 1461 in
    let e = c - (1461 * d) / 4 in
    let m = (5 * e + 2) / 153 in
    record {
      day = e - (153 * m + 2) / 5 + 1;
      month = m + 3 - 12 * (m / 10);
      year = b * 100 + d - 4800 + m / 10;
    }

int-some : (n : ℕ) → n < 2 ^ 31 → int n ≡ some n
unfolding int
int-some n less = rw (lt→ltb n (2 ^ 31) less) refl

-- Up to the year 1,400,000 no int overflows in the day number.
pub get_julian_day_number-some :
    (year month day : ℕ)
    → year ≤ 1400000
    → month ≤ 12
    → day ≤ 31
    → get_julian_day_number year month day ≡ some (day_number year month day)
unfolding get_julian_day_number day_number
get_julian_day_number-some year month day year_to month_to day_to =
    let a = (14 - month) / 12 in
    let y = year + 4800 - a in
    let m = month + 12 * a - 3 in
    let p = 153 * m + 2 in
    let s = day + p / 5 + y * 365 in
    rw (int-some (year + 4800) (omega arith), ◌>>=◌)
      (rw (int-some p (omega arith), ◌>>=◌)
        (rw (int-some (y * 365) (omega arith), ◌>>=◌)
          (rw (int-some s (omega arith), ◌>>=◌)
            (rw (int-some (s + y / 4) (omega arith), ◌>>=◌)
              (rw (int-some (s + y / 4 - y / 100 + y / 400) (omega arith), ◌>>=◌) refl)))))

-- Nor in the date of a day number that is not greater than 513,200,000.
pub get_year_month_day-some :
    (number : ℕ) → number ≤ 513200000 → get_year_month_day number ≡ some (calendar_date number)
unfolding get_year_month_day calendar_date
get_year_month_day-some number most =
    let a = number + 32044 in
    let b = (4 * a + 3) / 146097 in
    let c = a - (b * 146097) / 4 in
    let d = (4 * c + 3) / 1461 in
    let e = c - (1461 * d) / 4 in
    let m = (5 * e + 2) / 153 in
    rw (int-some a (omega arith), ◌>>=◌)
      (rw (int-some (4 * a + 3) (omega arith), ◌>>=◌)
        (rw (int-some (b * 146097) (omega arith), ◌>>=◌)
          (rw (int-some (4 * c + 3) (omega arith), ◌>>=◌)
            (rw (int-some (1461 * d) (omega arith), ◌>>=◌)
              (rw (int-some (5 * e + 2) (omega arith), ◌>>=◌)
                (rw (int-some (153 * m + 2) (omega arith), ◌>>=◌) refl))))))
