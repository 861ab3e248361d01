-- ===== src/Scenarios/Calendars.antt =====
-- A time zone whose clocks go forward by an hour, and the windows in it.
use sub_lane.Base.{ℕ, ◌+◌, ◌-◌, ◌*◌, ◌/◌, ◌≤◌, ◌<◌, ◌≡◌, refl, true, [], ◌∷◌, arith, leb}
use sub_lane.Timezone.{Location, zone_at, clock, date_of, day, has_reached, day_start, civil_start}
use sub_lane.Timezone.Starts.{IsOrderly, day_start-first, civil_start-day_start}
use sub_lane.Allowance.Calendar.{wall_time, MonthTable, window}
use sub_lane.Allowance.Calendar.WallTime.{IsFirst, wall_time-IsFirst}
use sub_lane.Allowance.Calendar.Months.{IsLate, window_steady}

-- One hour east of Greenwich, and two from 02:00 of the hundredth day on.
abbrev forward_at : ℕ
forward_at = 100 * 86400 + 3600

abbrev summer : Location
summer = record { first = 90000; changes = (forward_at, 93600) ∷ [] }

summer-offset :
    (u : ℕ)
    → (90000 ≤ (zone_at summer u).0)
      × ((zone_at summer u).0 ≤ 93600)
      × ((v : ℕ) → u ≤ v → (zone_at summer u).0 ≤ (zone_at summer v).0)
unfolding zone_at
summer-offset u = (ground arith, ground arith, λ v later. ground arith)

summer-IsOrderly : IsOrderly summer
unfolding date_of clock
summer-IsOrderly = record {
  east = λ u. omega (arith, (summer-offset u).0);
  west = λ u. omega (arith, (summer-offset u).1);
  forward = λ u v later. omega (arith, (summer-offset u).2 v later);
}

-- The day starts at 23:00 of Greenwich's day before.
abbrev day_101 : ℕ
day_101 = 100 * 86400 - 3600

starts : day_start summer 0 101 ≡ day_101
unfolding day_start
starts = refl

starts_by_noon : civil_start summer (day_101 + 43200) ≡ day_101
unfolding civil_start
starts_by_noon = refl

-- 02:30 is skipped: the first instant after the gap is taken.
skips : wall_time summer (λ n. 0) 101 150 ≡ forward_at
unfolding wall_time
skips = refl

noon_date : date_of summer (day_101 + 43200) ≡ 101
unfolding date_of
noon_date = refl

day_start-first_example :
    has_reached summer 101 (day_101 + 5) ≡ leb (day_start summer 0 101) (day_101 + 5)
day_start-first_example = day_start-first summer 0 101 summer-IsOrderly (omega arith) (day_101 + 5)

civil_start-day_start_example :
    civil_start summer (day_101 + 43200) ≡ day_start summer 0 (date_of summer (day_101 + 43200))
civil_start-day_start_example =
    civil_start-day_start summer 0 (day_101 + 43200) summer-IsOrderly (rw (noon_date) (omega arith))
      (rw (noon_date, starts) (omega arith))

wall_time-IsFirst_example :
    IsFirst summer
      (101 * day + 150 * 60)
      (day_start summer 0 101)
      (day_start summer 0 102)
      (wall_time summer (λ n. 0) 101 150)
wall_time-IsFirst_example = wall_time-IsFirst summer (λ n. 0) 101 150 summer-IsOrderly (omega arith)

-- A calendar with months of thirty days.
abbrev thirties : MonthTable
thirties = record {
  first_day = λ n. 30 * n;
  month_of = λ date. date / 30;
  growing = λ n. omega arith;
  begun = λ date. omega arith;
  unfinished = λ date. omega arith;
}

-- The reset of the 31st falls on the last day of the month.
this_month :
    window summer (λ n. 0) thirties true 31 0 (day_101 + 43200)
    ≡ (day_101 - 12 * 86400, day_101 + 18 * 86400 - 3600)
unfolding window
this_month = refl

is_late : IsLate summer thirties true (day_101 + 43200)
unfolding date_of
is_late = (omega arith, omega arith)

is_late' : IsLate summer thirties true (day_101 + 50000)
unfolding date_of
is_late' = (omega arith, omega arith)

holds_later :
    ((window summer (λ n. 0) thirties true 31 0 (day_101 + 43200)).0 ≤ day_101 + 50000)
    × (day_101 + 50000 < (window summer (λ n. 0) thirties true 31 0 (day_101 + 43200)).1)
holds_later = rw (this_month) (omega arith, omega arith)

window_steady_example :
    ((window summer (λ n. 0) thirties true 31 0 (day_101 + 43200)).0 ≤ day_101 + 43200)
    × (day_101 + 43200 < (window summer (λ n. 0) thirties true 31 0 (day_101 + 43200)).1)
    × (window summer (λ n. 0) thirties true 31 0 (day_101 + 50000)
        ≡ window summer (λ n. 0) thirties true 31 0 (day_101 + 43200))
window_steady_example =
    window_steady summer (λ n. 0) thirties true 31 0 summer-IsOrderly (day_101 + 43200)
      (day_101 + 50000) is_late is_late' holds_later.0 holds_later.1
