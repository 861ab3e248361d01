-- ===== src/Allowance/Calendar/Months.antt =====
-- The windows of the calendar hold the present and follow one another: `Window` of
-- internal/allocations/calendar.go.
use sub_lane.Base.{
  ℕ, zero, suc, ◌+◌, ◌-◌, ◌≤◌, ◌<◌, ◌≡◌, refl, sym, subst, ap, ◌∙◌, Bool, true, false, arith, ltb,
  if◌then◌else◌, Bool-cases, inl, inr,
}
use sub_lane.Timezone.{Location, date_of, day_start}
use sub_lane.Timezone.Starts.{IsOrderly, day_start-le, day_start-bounds}
use sub_lane.Allowance.Calendar.{MonthTable, reset_date, reset_on, window}
use sub_lane.Allowance.Calendar.WallTime.{wall_time-IsFirst}

-- The date with which a period begins: a day, or a month.
abbrev pub begins : MonthTable → Bool → ℕ → ℕ
begins table by_month n = if by_month then table.first_day n else n

abbrev pub period_of : MonthTable → Bool → ℕ → ℕ
period_of table by_month date = if by_month then table.month_of date else date

reset_date-within :
    (table : MonthTable) (by_month : Bool) (reset_day n : ℕ)
    → (begins table by_month n ≤ reset_date table by_month reset_day n)
      × (reset_date table by_month reset_day n < begins table by_month (n + 1))
unfolding reset_date
reset_date-within table true reset_day n = ground (arith, table.growing n)
reset_date-within table false reset_day n = (omega arith, omega arith)

period_of-within :
    (table : MonthTable) (by_month : Bool) (date : ℕ)
    → (begins table by_month (period_of table by_month date) ≤ date)
      × (date < begins table by_month (period_of table by_month date + 1))
period_of-within table true date = (table.begun date, table.unfinished date)
period_of-within table false date = (omega arith, omega arith)

begins-le :
    (table : MonthTable) (by_month : Bool) (n : ℕ)
    → begins table by_month n ≤ begins table by_month (n + 1)
begins-le table true n = omega (arith, table.growing n)
begins-le table false n = omega arith

-- The instant is late enough that the period before its own is one that the calendar knows, and
-- begins on 3 January 1970 or later.
abbrev pub IsLate : Location → MonthTable → Bool → ℕ → Type 0
IsLate loc table by_month at =
    (0 < period_of table by_month (date_of loc at))
    × (3 ≤ begins table by_month (period_of table by_month (date_of loc at) - 1))

module _ (loc : Location) (guess : ℕ → ℕ) (table : MonthTable) (by_month : Bool)
    (reset_day minute : ℕ) (orderly : IsOrderly loc) where
  abbrev low : ℕ → ℕ
  low n = day_start loc (guess (begins table by_month n)) (begins table by_month n)

  abbrev reset : ℕ → ℕ
  reset n = reset_on loc guess table by_month reset_day minute n

  -- A reset lies in its period, or is the first instant of the next.
  reset_within : (n : ℕ) → 3 ≤ begins table by_month n → (low n ≤ reset n) × (reset n ≤ low (n + 1))
  unfolding reset_on
  reset_within n late =
      let date = reset_date table by_month reset_day n in
      let (from, to) = reset_date-within table by_month reset_day n in
      let first = wall_time-IsFirst loc guess date minute orderly (omega arith) in
      let start =
        day_start-le loc (guess (begins table by_month n)) (guess date) (begins table by_month n)
          date orderly late from in
      let stop =
        day_start-le loc (guess (date + 1)) (guess (begins table by_month (n + 1))) (date + 1)
          (begins table by_month (n + 1)) orderly (omega arith) (omega arith) in
      (omega (arith, start, first.after), omega (arith, stop, first.within))

  reset-le : (n : ℕ) → 3 ≤ begins table by_month n → reset n ≤ reset (n + 1)
  reset-le n late =
      let next_late = begins-le table by_month n in
      omega (arith, reset_within n late, reset_within (n + 1) (omega arith))

  late_on : (n k : ℕ) → 3 ≤ begins table by_month n → 3 ≤ begins table by_month (n + k)
  late_on n zero late = subst (λ m. 3 ≤ begins table by_month m) (omega arith) late
  late_on n (suc k) late =
      let next_late : 3 ≤ begins table by_month (n + k + 1) =
        omega (arith, begins-le table by_month (n + k), late_on n k late) in
      subst (λ m. 3 ≤ begins table by_month m) (omega arith) next_late

  reset_mono : (n k : ℕ) → 3 ≤ begins table by_month n → reset n ≤ reset (n + k)
  reset_mono n zero late =
      let itself : reset n ≤ reset n = omega arith in
      subst (λ m. reset n ≤ reset m) (omega arith) itself
  reset_mono n (suc k) late =
      let step : reset n ≤ reset (n + k + 1) =
        omega (arith, reset_mono n k late, reset-le (n + k) (late_on n k late)) in
      subst (λ m. reset n ≤ reset m) (omega arith) step

  -- Two periods between resets that hold one instant are the same.
  same_period :
      (n k u : ℕ)
      → 3 ≤ begins table by_month n
      → 3 ≤ begins table by_month k
      → reset n ≤ u
      → u < reset (n + 1)
      → reset k ≤ u
      → u < reset (k + 1)
      → n ≡ k
  same_period n k u late late' from to from' to' = elim (Bool-cases (ltb n k)) [
    | inl less ↦ absurd (
        omega (
          arith,
          in_order (n + 1) k (ground arith) (omega (arith, late, begins-le table by_month n)),
        ))
    | inr more ↦ elim (Bool-cases (ltb k n)) [
      | inl less ↦ absurd (
          omega (
            arith,
            in_order (k + 1) n (ground arith) (omega (arith, late', begins-le table by_month k)),
          ))
      | inr more' ↦ ground arith
    ]
  ]
    where
      in_order : (a b : ℕ) → a ≤ b → 3 ≤ begins table by_month a → reset a ≤ reset b
      in_order a b ordered late_a =
          subst (λ m. reset a ≤ reset m) (omega arith) (reset_mono a (b - a) late_a)

  window_reset :
      (now : ℕ)
      → IsLate loc table by_month now
      → (n : ℕ) × (3 ≤ begins table by_month n)
        × (window loc guess table by_month reset_day minute now ≡ (reset n, reset (n + 1)))
        × (reset n ≤ now)
        × (now < reset (n + 1))
  unfolding window
  window_reset now (positive, late) =
      let date = date_of loc now in
      let n = period_of table by_month date in
      let (begun, unfinished) = period_of-within table by_month date in
      let back : n - 1 + 1 ≡ n = omega arith in
      let late_n : 3 ≤ begins table by_month n =
        subst (λ m. 3 ≤ begins table by_month m) back
          (omega (arith, late, begins-le table by_month (n - 1))) in
      let from =
        (day_start-bounds loc (guess (begins table by_month n)) (begins table by_month n) now
            orderly late_n).0
          begun in
      let next_late : 3 ≤ begins table by_month (n + 1) =
        omega (arith, late_n, begins-le table by_month n) in
      let to =
        (day_start-bounds loc (guess (begins table by_month (n + 1)))
            (begins table by_month (n + 1)) now orderly next_late).1
          unfinished in
      elim (Bool-cases (ltb now (reset n))) [
        | inl before ↦
            let earlier : reset (n - 1) ≤ low n =
              subst (λ m. reset (n - 1) ≤ low m) back (reset_within (n - 1) late).1 in
            (
              n - 1,
              late,
              rw (window, before, back) refl,
              omega (arith, earlier, from),
              subst (λ m. now < reset m) (sym back) (ground arith),
            )
        | inr past ↦ (
          n,
          late_n,
          rw (window, past) refl,
          ground arith,
          omega (arith, (reset_within (n + 1) next_late).0, to),
        )
      ]

  -- For a location whose offsets are less than a day and whose dates never go back, by day and by
  -- month, whatever the reset's day and time: the window of an instant holds it, and every instant
  -- that it holds has that window, where both are late enough.
  pub window_steady :
      (now u : ℕ)
      → IsLate loc table by_month now
      → IsLate loc table by_month u
      → (window loc guess table by_month reset_day minute now).0 ≤ u
      → u < (window loc guess table by_month reset_day minute now).1
      → ((window loc guess table by_month reset_day minute now).0 ≤ now)
        × (now < (window loc guess table by_month reset_day minute now).1)
        × (window loc guess table by_month reset_day minute u
            ≡ window loc guess table by_month reset_day minute now)
  window_steady now u late late' from to =
      let (n, late_n, found, begun, unfinished) = window_reset now late in
      let (k, late_k, found', begun', unfinished') = window_reset u late' in
      let first = ap (λ (w : ℕ × ℕ). w.0) found in
      let last = ap (λ (w : ℕ × ℕ). w.1) found in
      let same : k ≡ n =
        same_period k n u late_k late_n begun' unfinished' (rw (← first) from) (rw (← last) to) in
      (
        rw (first) begun,
        rw (last) unfinished,
        found' ∙ ap (λ m. (reset m, reset (m + 1))) same ∙ sym found,
      )
