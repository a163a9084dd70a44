-- ===== src/Util/Date/Days.antt =====
-- From the day numbers of src/util/unp_date.cpp to dates and back.
use unp.Base.{ℕ, suc, ◌+◌, ◌-◌, ◌*◌, ◌/◌, ◌%◌, ◌≤◌, ◌<◌, ◌≡◌, ap, ◌∙◌, true, arith, some}
use unp.Util.Date.{YearMonthDay, get_julian_day_number, get_year_month_day}
use unp.Util.Date.Formula.{
  day_number, calendar_date, get_julian_day_number-some, get_year_month_day-some,
}
use unp.Util.Date.Calendar.{is_leap, IsDate, day_count, made, jdn-day_count, days_at_most}

-- The division of a day count into centuries, of a century into years, and of a year into months.
abbrev centuries : ℕ → ℕ
centuries a = (4 * a + 3) / 146097

abbrev century_day : ℕ → ℕ
century_day a = a - (centuries a * 146097) / 4

centuries_lem :
    (a : ℕ)
    → (a ≡ 36524 * centuries a + centuries a / 4 + century_day a)
      × ((century_day a ≤ 36524) × (century_day a ≡ 36524 → centuries a % 4 ≡ 3))
centuries_lem a = ground arith

abbrev years : ℕ → ℕ
years c = (4 * c + 3) / 1461

abbrev year_day : ℕ → ℕ
year_day c = c - (1461 * years c) / 4

years_lem :
    (c : ℕ)
    → c ≤ 36524
    → (c ≡ 365 * years c + years c / 4 + year_day c)
      × ((years c ≤ 99)
          × ((year_day c ≤ 365)
              × (year_day c ≡ 365 → (years c % 4 ≡ 3) × (years c ≡ 99 → c ≡ 36524))))
years_lem c h = ground arith

abbrev months : ℕ → ℕ
months e = (5 * e + 2) / 153

months_lem :
    (e : ℕ)
    → e ≤ 365
    → (months e ≤ 11) × (((153 * months e + 2) / 5 ≤ e) × (e < (153 * suc (months e) + 2) / 5))
months_lem e h = ground arith

-- The date with month `m` and day `k` of the year `y`, counted from March.
abbrev from_march : ℕ → ℕ → ℕ → YearMonthDay
from_march y m k = made (y - 4800 + m / 10) (m + 3 - 12 * (m / 10)) (k + 1)

from_march-IsDate :
    (y m k : ℕ)
    → m ≤ 11
    → 4800 ≤ y
    → 1 ≤ y - 4800 + m / 10
    → (153 * m + 2) / 5 + k < (153 * suc m + 2) / 5
    → (153 * m + 2) / 5 + k ≤ 365
    → ((153 * m + 2) / 5 + k ≡ 365 → is_leap (suc y) ≡ true)
    → IsDate (from_march y m k)
from_march-IsDate y m k hm hy hy1 hk he leap = record {
  year_from = hy1;
  month_from = omega arith;
  month_to = omega arith;
  day_from = omega arith;
  day_to = ground arith;
}

jdn-from_march :
    (y m k : ℕ)
    → m ≤ 11
    → 4800 ≤ y
    → day_number (y - 4800 + m / 10) (m + 3 - 12 * (m / 10)) (k + 1) + 32044
      ≡ day_count y ((153 * m + 2) / 5 + k)
unfolding day_number
jdn-from_march y m k hm hy = omega arith

-- The day `n` is the date that the divisions find.
from_march-number :
    (n b r m k c e : ℕ)
    → 1721426 ≤ n
    → n + 32044 ≡ 36524 * b + b / 4 + c
    → c ≡ 365 * r + r / 4 + e
    → c ≤ 36524
    → (c ≡ 36524 → b % 4 ≡ 3)
    → r ≤ 99
    → e ≤ 365
    → (e ≡ 365 → (r % 4 ≡ 3) × (r ≡ 99 → c ≡ 36524))
    → m ≤ 11
    → e ≡ (153 * m + 2) / 5 + k
    → e < (153 * suc m + 2) / 5
    → (let t = from_march (b * 100 + r) m k in IsDate t × (day_number t.year t.month t.day ≡ n))
from_march-number n b r m k c e h ea ec hc fc hr he fe hm ek hi = (
  from_march-IsDate (b * 100 + r) m k hm (omega arith) (omega arith) (omega arith) (omega arith)
      (λ g. ground (arith, fe, fc)),
  omega (arith, jdn-from_march (b * 100 + r) m k hm (omega arith)),
)

julian_day_number_lem :
    (n : ℕ)
    → 1721426 ≤ n
    → (let t = calendar_date n in IsDate t × (day_number t.year t.month t.day ≡ n))
unfolding calendar_date
julian_day_number_lem n h =
    let c = century_day (n + 32044) in
    let e = year_day c in
    let (ea, (hc, fc)) = centuries_lem (n + 32044) in
    let (ec, (hr, (he, fe))) = years_lem c hc in
    let (hm, (lo, hi)) = months_lem e he in
    from_march-number n (centuries (n + 32044)) (years c) (months e) (e - (153 * months e + 2) / 5)
      c e h ea ec hc fc hr he fe hm (omega (arith, lo)) hi

-- A day number from January 1st of the year 1 to 513,000,000 gives a date of the Gregorian calendar,
-- whose day number it is; no int overflows in either direction.
pub get_year_month_day-IsDate :
    (n : ℕ)
    → 1721426 ≤ n
    → n ≤ 513000000
    → (t : YearMonthDay) × (get_year_month_day n ≡ some t)
      × IsDate t
      × (get_julian_day_number t.year t.month t.day ≡ some n)
get_year_month_day-IsDate n least most =
    let (v, number) = julian_day_number_lem n least in
    let t = calendar_date n in
    let most_years : t.year ≤ 1400000 =
      omega (arith, jdn-day_count t v, number, most, v.month_from, v.month_to) in
    (
      t,
      get_year_month_day-some n (omega arith),
      v,
      get_julian_day_number-some t.year t.month t.day most_years v.month_to (days_at_most t v)
          ∙ ap some number,
    )
