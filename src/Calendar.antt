-- ===== src/Calendar.antt =====
-- Dates of the proleptic Gregorian calendar as Python's `datetime` counts them, and the instants
-- that the handlers compare: a UTC date with the second of the day. SQLite's `datetime()` drops
-- what is below a second.
use capital_os.Base.{
  ℕ, ◌≤◌, ◌+◌, ◌-◌, ◌*◌, ◌/◌, ◌%◌, Bool, ◌&&◌, ◌||◌, not, ltb, leb, ◌==◌, if◌then◌else◌,
}

pub record Date : Type 0 where
  pub year : ℕ
  pub month : ℕ
  pub day : ℕ

pub record Instant : Type 0 where
  pub date : Date
  pub second : ℕ

unfoldable pub is_leap : ℕ → Bool
is_leap y = y % 4 == 0 && (not (y % 100 == 0) || y % 400 == 0)

unfoldable pub days_in_month : ℕ → ℕ → ℕ
unfolding is_leap
days_in_month y m =
    if m == 2
    then (if is_leap y then 29 else 28)
    else if m == 4 || m == 6 || m == 9 || m == 11
    then 30
    else 31

-- the days of year `y` before the first of month `m`
unfoldable pub days_before_month : ℕ → ℕ → ℕ
unfolding is_leap
days_before_month y m =
    if leb m 2 then 31 * (m - 1) else (153 * (m - 3) + 2) / 5 + 59 + (if is_leap y then 1 else 0)

unfoldable pub days_before_year : ℕ → ℕ
days_before_year year = let y = year - 1 in y * 365 + y / 4 - y / 100 + y / 400

-- `date.toordinal()`: 1 is the first of January of the year 1
unfoldable pub to_ordinal : Date → ℕ
unfolding days_before_year days_before_month
to_ordinal d = days_before_year d.year + days_before_month d.year d.month + d.day

-- the seconds since the first second of the year 1
unfoldable pub timestamp : Instant → ℕ
unfolding to_ordinal
timestamp t = (to_ordinal t.date - 1) * 86400 + t.second

-- two dates are the same day
abbrev pub same_date : Date → Date → Bool
same_date a b = a.year == b.year && a.month == b.month && a.day == b.day

-- `a <= b` on dates
unfoldable pub date_leb : Date → Date → Bool
date_leb a b =
    ltb a.year b.year
    || a.year == b.year && (ltb a.month b.month || a.month == b.month && leb a.day b.day)

-- `d - timedelta(days=1)`, for a date after the first of the calendar
unfoldable pub day_before : Date → Date
unfolding days_in_month
day_before d =
    if ltb 1 d.day
    then record d { day = d.day - 1 }
    else if ltb 1 d.month
    then record d { month = d.month - 1; day = days_in_month d.year (d.month - 1) }
    else record { year = d.year - 1; month = 12; day = 31 }

-- `d + timedelta(days=1)`, for a date before the last of the calendar
unfoldable pub day_after : Date → Date
unfolding days_in_month
day_after d =
    if ltb d.day (days_in_month d.year d.month)
    then record d { day = d.day + 1 }
    else if ltb d.month 12
    then record d { month = d.month + 1; day = 1 }
    else record { year = d.year + 1; month = 1; day = 1 }

-- A date of the calendar.
pub record IsDate (d : Date) : Type 0 where
  pub first_month : 1 ≤ d.month
  pub last_month : d.month ≤ 12
  pub first_day : 1 ≤ d.day
  pub last_day : d.day ≤ days_in_month d.year d.month
