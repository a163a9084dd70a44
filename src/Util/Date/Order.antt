-- ===== src/Util/Date/Order.antt =====
-- The order of dates in src/util/unp_date.h is that of the calendar.
use unp.Base.{
  ℕ, suc, ◌+◌, ◌*◌, ◌/◌, ◌≤◌, ◌<◌, ◌≡◌, lt→ltb, le→ltb, Bool-cases, ◌⊎◌, inl, inr, ltb, Bool, true,
  false, arith, ◌&&◌, ◌||◌, ◌==◌, some,
}
use unp.Util.Date.{YearMonthDay, Date, date, earlier}
use unp.Util.Date.Formula.{day_number}
use unp.Util.Date.Calendar.{
  is_leap, IsDate, day_count, march_year, march_month, march_day, jdn-day_count, in_month, in_year,
  in_leap, date-some,
}

-- The dates come in the order of their numbers.
abbrev pub before : YearMonthDay → YearMonthDay → Bool
before s t =
    ltb s.year t.year
    || ((s.year == t.year) && (ltb s.month t.month || ((s.month == t.month) && ltb s.day t.day)))

day_count_mono : (y z f : ℕ) → y ≤ z → day_count y f ≤ day_count z f
day_count_mono y z f h = omega arith

day_count-lt :
    (y z e f : ℕ)
    → y < z
    → e ≤ 365
    → (e ≡ 365 → is_leap (suc y) ≡ true)
    → day_count y e < day_count z f
day_count-lt y z e f h l leap = ground (arith, day_count_mono (suc y) z f h)

month_start : (m n : ℕ) → m < n → (153 * suc m + 2) / 5 ≤ (153 * n + 2) / 5
month_start m n h = omega arith

march_day-lt :
    (s t : YearMonthDay)
    → IsDate s
    → IsDate t
    → march_month s < march_month t
    → march_day s < march_day t
march_day-lt s t v w h = omega (arith, in_month s v, month_start (march_month s) (march_month t) h)

-- The order by year and month is the order of the years and months from March.
march_order :
    (s t : YearMonthDay)
    → IsDate s
    → IsDate t
    → before s t ≡ true
    → (march_year s < march_year t)
      ⊎ ((march_year s ≡ march_year t)
          × ((march_month s < march_month t) ⊎ ((march_month s ≡ march_month t) × (s.day < t.day))))
march_order s t v w h = ground (arith, v.month_from, v.month_to, w.month_from, w.month_to)

number-lt :
    (s t : YearMonthDay)
    → IsDate s
    → IsDate t
    → before s t ≡ true
    → day_number s.year s.month s.day < day_number t.year t.month t.day
number-lt s t v w h =
    let a = jdn-day_count s v in
    let b = jdn-day_count t w in
    elim (march_order s t v w h) [
      | inl lt ↦ omega (
        arith,
        a,
        b,
        day_count-lt (march_year s) (march_year t) (march_day s) (march_day t) lt (in_year s v)
            (in_leap s v),
      )
      | inr (e, inl lt) ↦ omega (arith, (rw e at a), b, march_day-lt s t v w lt)
      | inr (e, inr (f, lt)) ↦ omega (arith, (rw (e, f) at a), b, lt, v.day_from)
    ]

-- Of two dates, one comes before the other, or they are the same.
before-total :
    (s t : YearMonthDay)
    → before s t ≡ false
    → (before t s ≡ true) ⊎ ((s.year ≡ t.year) × ((s.month ≡ t.month) × (s.day ≡ t.day)))
before-total s t h = ground arith

julian_day_number-before :
    (s t : YearMonthDay)
    → IsDate s
    → IsDate t
    → ltb (day_number s.year s.month s.day) (day_number t.year t.month t.day) ≡ before s t
julian_day_number-before s t v w = elim (Bool-cases (before s t)) [
  | inl h ↦ rw h (lt→ltb _ _ (number-lt s t v w h))
  | inr h ↦ elim (before-total s t h) [
    | inl g ↦ rw h (le→ltb _ _ (omega (arith, number-lt t s w v g)))
    | inr (e, (f, g)) ↦ rw h (rw (e, f, g) (le→ltb _ _ (omega arith)))
  ]
]

-- Of two dates of the Gregorian calendar, of years from 1 to 1,400,000, the first Date is smaller than
-- the second exactly when it comes first by year, month and day.
pub earlier-before :
    (s t : YearMonthDay)
    → IsDate s
    → IsDate t
    → s.year ≤ 1400000
    → t.year ≤ 1400000
    → (x : Date) × (y : Date) × (date s.year s.month s.day ≡ some x)
      × (date t.year t.month t.day ≡ some y)
      × (earlier x y ≡ before s t)
earlier-before s t v w s_most t_most =
    (_, _, date-some s v s_most, date-some t w t_most, julian_day_number-before s t v w)
