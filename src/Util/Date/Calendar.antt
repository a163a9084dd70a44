-- ===== src/Util/Date/Calendar.antt =====
-- The Gregorian calendar, and the algorithm of src/util/unp_date.cpp against it.
use unp.Base.{
  ℕ, suc, ◌+◌, ◌-◌, ◌*◌, ◌/◌, ◌%◌, ◌≤◌, ◌<◌, ◌≡◌, refl, ap, ◌∙◌, Bool, true, arith, ◌==◌,
  if◌then◌else◌, some,
}
use unp.Buffer.Chain.{◌>>=◌}
use unp.Util.Date.{YearMonthDay, date, year_month_day}
use unp.Util.Date.Formula.{
  day_number, calendar_date, get_julian_day_number-some, get_year_month_day-some,
}

-- A century year is a leap year when 400 divides it.
abbrev pub is_leap : ℕ → Bool
is_leap year = if year % 100 == 0 then year % 400 == 0 else year % 4 == 0

-- From March on the lengths repeat after five months: 31, 30, 31, 30, 31.
abbrev pub days_in_month : ℕ → ℕ → ℕ
days_in_month year month =
    if month == 2
    then (if is_leap year then 29 else 28)
    else if (month + 9) % 12 % 5 % 2 == 0
    then 31
    else 30

pub record IsDate (t : YearMonthDay) : Type 0 where
  pub year_from : 1 ≤ t.year
  pub month_from : 1 ≤ t.month
  pub month_to : t.month ≤ 12
  pub day_from : 1 ≤ t.day
  pub day_to : t.day ≤ days_in_month t.year t.month

-- The days before the year `y`, counted from March, and `e` more.
abbrev pub day_count : ℕ → ℕ → ℕ
day_count y e = y * 365 + y / 4 - y / 100 + y / 400 + e

pub count-split :
    (y e : ℕ)
    → day_count y e ≡ 36524 * (y / 100) + y / 100 / 4 + (365 * (y % 100) + y % 100 / 4 + e)
count-split y e = omega arith

century :
    (b r e : ℕ)
    → r < 100
    → e ≤ 365
    → (e ≡ 365 → r ≡ 99 → b % 4 ≡ 3)
    → (4 * (36524 * b + b / 4 + (365 * r + r / 4 + e)) + 3) / 146097 ≡ b
century b r e h l f = ground arith

year_of : (r e : ℕ) → e ≤ 365 → (e ≡ 365 → r % 4 ≡ 3) → (4 * (365 * r + r / 4 + e) + 3) / 1461 ≡ r
year_of r e l f = ground arith

month_of :
    (m k : ℕ)
    → (153 * m + 2) / 5 + k < (153 * suc m + 2) / 5
    → (5 * ((153 * m + 2) / 5 + k) + 2) / 153 ≡ m
month_of m k h = omega arith

-- The year and the month counted from March.
abbrev pub march_year : YearMonthDay → ℕ
march_year t = t.year + 4800 - (14 - t.month) / 12

abbrev pub march_month : YearMonthDay → ℕ
march_month t = t.month + 12 * ((14 - t.month) / 12) - 3

abbrev pub march_day : YearMonthDay → ℕ
march_day t = (153 * march_month t + 2) / 5 + (t.day - 1)

pub jdn-day_count :
    (t : YearMonthDay)
    → IsDate t
    → day_number t.year t.month t.day + 32044 ≡ day_count (march_year t) (march_day t)
unfolding day_number
jdn-day_count t v = omega (arith, v.month_from, v.month_to, v.day_from)

pub in_month : (t : YearMonthDay) → IsDate t → march_day t < (153 * suc (march_month t) + 2) / 5
in_month t v = ground (arith, v.month_from, v.month_to, v.day_from, v.day_to)

pub in_year : (t : YearMonthDay) → IsDate t → march_day t ≤ 365
in_year t v = ground (arith, v.month_from, v.month_to, v.day_from, v.day_to)

pub in_leap :
    (t : YearMonthDay) → IsDate t → march_day t ≡ 365 → is_leap (suc (march_year t)) ≡ true
in_leap t v h = ground (arith, v.month_from, v.month_to, v.day_from, v.day_to)

century_rest : (b x : ℕ) → 36524 * b + b / 4 + x - (b * 146097) / 4 ≡ x
century_rest b x = omega arith

year_rest : (r e : ℕ) → 365 * r + r / 4 + e - (1461 * r) / 4 ≡ e
year_rest r e = omega arith

abbrev pub made : ℕ → ℕ → ℕ → YearMonthDay
made y m d = record { year = y; month = m; day = d }

-- What `getYearMonthDay` finds in a day count: century `b`, year `r` of it, month `m` from March.
calendar_date-count :
    (n b r m k : ℕ)
    → (let e = (153 * m + 2) / 5 + k in
        n + 32044 ≡ 36524 * b + b / 4 + (365 * r + r / 4 + e)
        → r < 100
        → e ≤ 365
        → (e ≡ 365 → r % 4 ≡ 3)
        → (e ≡ 365 → r ≡ 99 → b % 4 ≡ 3)
        → e < (153 * suc m + 2) / 5
        → calendar_date n ≡ made (b * 100 + r - 4800 + m / 10) (m + 3 - 12 * (m / 10)) (k + 1))
unfolding calendar_date
calendar_date-count n b r m k =
    let e = (153 * m + 2) / 5 + k in
    λ h lt le leap leap2 len.
      rw
        (
          h,
          century b r e lt le leap2,
          century_rest b (365 * r + r / 4 + e),
          year_of r e le leap,
          year_rest r e,
          month_of m k len,
        )
        (ap (λ x. made (b * 100 + r - 4800 + m / 10) (m + 3 - 12 * (m / 10)) (x + 1)) (omega arith))

made_cong : {y y' m m' d d' : ℕ} → y ≡ y' → m ≡ m' → d ≡ d' → made y m d ≡ made y' m' d'
made_cong e f g = rw (e, f, g) refl

pub calendar_date-day_number :
    (t : YearMonthDay) → IsDate t → calendar_date (day_number t.year t.month t.day) ≡ t
calendar_date-day_number t v =
    let y = march_year t in
    let leap = in_leap t v in
    calendar_date-count _ (y / 100) (y % 100) (march_month t) (t.day - 1)
      (jdn-day_count t v ∙ count-split y (march_day t)) (omega arith) (in_year t v)
      (λ h. ground (arith, leap h)) (λ h. ground (arith, leap h)) (in_month t v)
    ∙ made_cong (omega (arith, v.year_from, v.month_from, v.month_to))
        (omega (arith, v.month_from, v.month_to)) (omega (arith, v.day_from))

pub days_at_most : (t : YearMonthDay) → IsDate t → t.day ≤ 31
days_at_most t v = ground (arith, v.day_to)

-- The day number of a date up to the year 1,400,000.
day_number_most :
    (t : YearMonthDay) → IsDate t → t.year ≤ 1400000 → day_number t.year t.month t.day ≤ 513200000
day_number_most t v most =
    omega (arith, jdn-day_count t v, in_year t v, v.month_from, v.month_to, most)

pub date-some :
    (t : YearMonthDay)
    → IsDate t
    → t.year ≤ 1400000
    → date t.year t.month t.day
      ≡ some (record { julian_day_number = day_number t.year t.month t.day })
unfolding date
date-some t v most =
    rw (get_julian_day_number-some t.year t.month t.day most v.month_to (days_at_most t v), ◌>>=◌)
      refl

-- The date that is computed from the day number of a date of the Gregorian calendar, of a year from 1
-- to 1,400,000, is this date, and no int overflows.
pub year_month_day_lem :
    (t : YearMonthDay)
    → IsDate t
    → t.year ≤ 1400000
    → (do x ← date t.year t.month t.day; year_month_day x) ≡ some t
year_month_day_lem t v most =
    rw (date-some t v most, ◌>>=◌)
      (rw (get_year_month_day-some _ (day_number_most t v most))
        (ap some (calendar_date-day_number t v)))
