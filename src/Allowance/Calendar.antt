-- ===== src/Allowance/Calendar.antt =====
-- The windows of the calendar: `Window`, `resetOn` and `wallTime` of
-- internal/allocations/calendar.go, on the clock of a location. What `Window` finds is the
-- `calendar` of the effective windows.
pub mod WallTime
pub mod Months
use sub_lane.Base.{
  ℕ, zero, suc, ◌+◌, ◌-◌, ◌*◌, ◌≤◌, ◌<◌, Bool, Option, none, some, ltb, min, max, if◌then◌else◌,
}
use sub_lane.Timezone.{Location, zone_at, date_of, day, day_start}

-- The end of a segment of one offset, within the day.
unfoldable pub boundary_of : Option ℕ → ℕ → ℕ
boundary_of none stop = stop
boundary_of (some bound) stop = if ltb stop bound then stop else bound

-- The loop of wallTime; its fuel is the time that is left of the day.
unfoldable pub walk : ℕ → Location → ℕ → ℕ → ℕ → ℕ
unfolding zone_at boundary_of
walk zero loc want stop segment = stop
walk (suc fuel) loc want stop segment =
    let zone = zone_at loc segment in
    let boundary = boundary_of zone.1 stop in
    let candidate = max (want - zone.0) segment in
    let next = walk fuel loc want stop boundary in
    if ltb segment stop then (if ltb candidate boundary then candidate else next) else stop

-- wallTime, with the guesses that time.Date makes for the starts of dates.
unfoldable pub wall_time : Location → (ℕ → ℕ) → ℕ → ℕ → ℕ
unfolding walk day_start
wall_time loc guess date minute =
    let start = day_start loc (guess date) date in
    let stop = day_start loc (guess (date + 1)) (date + 1) in
    walk (stop - start) loc (date * day + minute * 60) stop start

-- The months of the calendar, by the dates of their first days.
pub record MonthTable : Type 0 where
  pub first_day : ℕ → ℕ
  pub month_of : ℕ → ℕ
  pub growing : (n : ℕ) → first_day n < first_day (n + 1)
  pub begun : (date : ℕ) → first_day (month_of date) ≤ date
  pub unfinished : (date : ℕ) → date < first_day (month_of date + 1)

-- resetOn: the date of the reset in a month, and in a day.
unfoldable pub reset_date : MonthTable → Bool → ℕ → ℕ → ℕ
reset_date table by_month reset_day n =
    if by_month
    then table.first_day n
      + (min (max 1 reset_day) (table.first_day (n + 1) - table.first_day n) - 1)
    else n

unfoldable pub reset_on : Location → (ℕ → ℕ) → MonthTable → Bool → ℕ → ℕ → ℕ → ℕ
unfolding reset_date wall_time
reset_on loc guess table by_month reset_day minute n =
    wall_time loc guess (reset_date table by_month reset_day n) minute

-- Window: the period of the present instant, and the one before or after it.
unfoldable pub window : Location → (ℕ → ℕ) → MonthTable → Bool → ℕ → ℕ → ℕ → ℕ × ℕ
unfolding reset_on date_of
window loc guess table by_month reset_day minute now =
    let date = date_of loc now in
    let n = if by_month then table.month_of date else date in
    let reset = reset_on loc guess table by_month reset_day minute in
    if ltb now (reset n) then (reset (n - 1), reset n) else (reset n, reset (n + 1))
