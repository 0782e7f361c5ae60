-- ===== src/Simulation/Months.antt =====
-- The dates of `_add_months` against the calendar.
use capital_os.Base.{ℕ, ◌+◌, ◌*◌, ◌≤◌, ◌≡◌, leb, arith, if◌then◌else◌}
use capital_os.Calendar.{Date, IsDate, days_in_month}
use capital_os.Simulation.{clip_day, months_after}

days_in_month-le : (y m : ℕ) → days_in_month y m ≤ 31
unfolding days_in_month
days_in_month-le y m = ground arith

clip_day-le : (y m d : ℕ) → d ≤ 31 → clip_day y m d ≤ days_in_month y m
unfolding clip_day days_in_month
clip_day-le y m d h = ground arith

le-clip_day : (y m d : ℕ) → 1 ≤ d → 1 ≤ clip_day y m d
unfolding clip_day
le-clip_day y m d h = ground arith

-- The months after a date are dates: the day is one that the month has.
pub months_after-IsDate : (d : Date) (n : ℕ) → IsDate d → IsDate (months_after d n)
unfolding months_after
months_after-IsDate d n h = record {
  first_month = omega arith;
  last_month = omega arith;
  first_day = le-clip_day _ _ d.day h.first_day;
  last_day = clip_day-le _ _ d.day (omega (arith, days_in_month-le d.year d.month, h.last_day));
}

clip_day-eq-min :
    (y m d : ℕ)
    → d ≤ 31
    → clip_day y m d ≡ (if leb d (days_in_month y m) then d else days_in_month y m)
unfolding clip_day days_in_month
clip_day-eq-min y m d h = ground arith

-- Counted in months, the date `n` months after a date of the calendar is exactly `n` later, its month
-- is one of the twelve, and its day is that of the date, or the last of its month where that is
-- shorter.
pub months_after-counts :
    (d : Date) (n : ℕ)
    → IsDate d
    → (12 * (months_after d n).year + (months_after d n).month ≡ 12 * d.year + d.month + n)
      × (1 ≤ (months_after d n).month)
      × ((months_after d n).month ≤ 12)
      × ((months_after d n).day ≡ (
          let last = days_in_month (months_after d n).year (months_after d n).month in
          if leb d.day last then d.day else last))
unfolding months_after
months_after-counts d n h =
    let first = h.first_month in
    let fits : d.day ≤ 31 = omega (arith, days_in_month-le d.year d.month, h.last_day) in
    (omega arith, omega arith, omega arith, clip_day-eq-min _ _ d.day fits)
