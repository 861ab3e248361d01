-- ===== src/Timezone/Starts.antt =====
-- The searches of internal/timezone/calendar.go and internal/resets/schedule.go find the first
-- instant of a date.
use sub_lane.Base.{
  ℕ, zero, suc, ◌+◌, ◌-◌, ◌*◌, ◌/◌, ◌≤◌, ◌<◌, ◌≡◌, sym, ◌∙◌, Bool, true, false, not, arith, ltb,
  leb, nat_beq, Bool-cases, inl, inr,
}
use sub_lane.Timezone.{
  Location, zone_at, clock, date_of, day, bisect, has_reached, is_midnight, day_start, civil_start,
}

-- A test that holds from some instant on.
abbrev pub Lasts : (ℕ → Bool) → Type 0
Lasts reached = (u v : ℕ) → u ≤ v → reached u ≡ true → reached v ≡ true

not_yet :
    (reached : ℕ → Bool) (u v : ℕ) → Lasts reached → u ≤ v → reached v ≡ false → reached u ≡ false
not_yet reached u v lasts ordered failed = elim (Bool-cases (reached u)) [
  | inl holds ↦ absurd (ground (arith, lasts u v ordered holds, failed))
  | inr fails ↦ fails
]

first_at :
    (reached : ℕ → Bool) (lo u : ℕ)
    → Lasts reached
    → reached lo ≡ true
    → ((v : ℕ) → v < lo → reached v ≡ false)
    → reached u ≡ leb lo u
first_at reached lo u lasts at_lo below = elim (Bool-cases (leb lo u)) [
  | inl past ↦ rw (past) (lasts lo u (ground arith) at_lo)
  | inr before ↦ rw (before) (below u (ground arith))
]

-- The search ends at the first instant of the test, between an instant below which it fails and
-- one at which it holds.
pub bisect-first :
    (fuel : ℕ) (reached : ℕ → Bool) (lo hi : ℕ)
    → hi - lo ≤ fuel
    → lo ≤ hi
    → Lasts reached
    → reached hi ≡ true
    → ((u : ℕ) → u < lo → reached u ≡ false)
    → (u : ℕ) → reached u ≡ leb (bisect fuel reached lo hi) u
unfolding bisect
bisect-first zero reached lo hi enough ordered lasts at_hi below u =
    let same : hi ≡ lo = omega arith in first_at reached lo u lasts (rw (← same) at_hi) below
bisect-first (suc fuel) reached lo hi enough ordered lasts at_hi below u =
    let mid : ℕ = lo + (hi - lo) / 2 in
    elim (Bool-cases (ltb lo hi)) [
      | inl room ↦ elim (Bool-cases (reached mid)) [
        | inl past ↦
            rw (room, past, bisect)
              (bisect-first fuel reached lo mid (ground arith) (omega arith) lasts past below u)
        | inr before ↦
            rw (room, before, bisect)
              (bisect-first fuel reached (mid + 1) hi (ground arith) (ground arith) lasts at_hi
                (λ v early. not_yet reached v mid lasts (omega arith) before) u)
      ]
      | inr none_left ↦
          let same : hi ≡ lo = ground arith in
          rw (none_left, bisect) (first_at reached lo u lasts (rw (← same) at_hi) below)
    ]

-- Offsets of less than a day, and a clock whose date never goes back.
pub record IsOrderly (loc : Location) : Type 0 where
  pub east : (u : ℕ) → 0 < (zone_at loc u).0
  pub west : (u : ℕ) → (zone_at loc u).0 < 2 * day
  pub forward : (u v : ℕ) → u ≤ v → date_of loc u ≤ date_of loc v

has_reached-Lasts : (loc : Location) (date : ℕ) → IsOrderly loc → Lasts (has_reached loc date)
unfolding has_reached
has_reached-Lasts loc date orderly u v later past = ground (arith, orderly.forward u v later, past)

at_midnight :
    (loc : Location) (date guess : ℕ)
    → is_midnight loc date guess ≡ true
    → (date_of loc guess ≡ date) × (nat_beq (date_of loc (guess - 1)) date ≡ false)
unfolding is_midnight
at_midnight loc date guess h = ground arith

two_days_late :
    (loc : Location) (date : ℕ)
    → IsOrderly loc
    → has_reached loc date (date * day - day + 2 * day) ≡ true
unfolding has_reached date_of clock
two_days_late loc date orderly = ground (arith, orderly.east (date * day - day + 2 * day))

two_days_early :
    (loc : Location) (date u : ℕ)
    → IsOrderly loc
    → 3 ≤ date
    → u < date * day - day - 2 * day
    → has_reached loc date u ≡ false
unfolding has_reached date_of clock
two_days_early loc date u orderly late early = ground (arith, orderly.west u)

before_midnight :
    (loc : Location) (date guess v : ℕ)
    → IsOrderly loc
    → date_of loc guess ≡ date
    → nat_beq (date_of loc (guess - 1)) date ≡ false
    → v < guess
    → has_reached loc date v ≡ false
unfolding has_reached
before_midnight loc date guess v orderly here differs early =
    let step = orderly.forward (guess - 1) guess (omega arith) in
    let earlier = orderly.forward v (guess - 1) (omega arith) in
    ground (arith, here, differs, step, earlier)

-- An instant is at the date or past it exactly if it is not before what the function returns: for
-- every location whose offsets are less than a day and whose dates never go back, and whatever
-- instant `time.Date` guesses, for a date from 3 January 1970 on.
pub day_start-first :
    (loc : Location) (guess date : ℕ)
    → IsOrderly loc
    → 3 ≤ date
    → (u : ℕ) → has_reached loc date u ≡ leb (day_start loc guess date) u
unfolding day_start
day_start-first loc guess date orderly late u = elim (Bool-cases (is_midnight loc date guess)) [
  | inl exact ↦
      rw (exact, day_start)
        (let (here, differs) = at_midnight loc date guess exact in
          first_at (has_reached loc date) guess u (has_reached-Lasts loc date orderly)
            (unfold has_reached in ground (arith, here))
            (λ v early. before_midnight loc date guess v orderly here differs early))
  | inr search ↦
      rw (search, day_start)
        (bisect-first _ (has_reached loc date) (date * day - day - 2 * day)
          (date * day - day + 2 * day) (omega arith) (omega arith)
          (has_reached-Lasts loc date orderly) (two_days_late loc date orderly)
          (λ v early. two_days_early loc date v orderly late early) u)
]

-- An instant is before the start of a date exactly while its own date is.
pub day_start-bounds :
    (loc : Location) (guess date u : ℕ)
    → IsOrderly loc
    → 3 ≤ date
    → (date ≤ date_of loc u → day_start loc guess date ≤ u)
      × (date_of loc u < date → u < day_start loc guess date)
unfolding has_reached
day_start-bounds loc guess date u orderly late =
    let first = day_start-first loc guess date orderly late u in
    (λ past. ground (arith, first, past), λ early. ground (arith, first, early))

pub day_start-le :
    (loc : Location) (guess guess' date later : ℕ)
    → IsOrderly loc
    → 3 ≤ date
    → date ≤ later
    → day_start loc guess date ≤ day_start loc guess' later
unfolding has_reached
day_start-le loc guess guess' date later orderly late ordered =
    let at = day_start loc guess' later in
    ground (
      arith,
      day_start-first loc guess' later orderly (omega arith) at,
      day_start-first loc guess date orderly late at,
    )

same_first : (a b : ℕ) → ((u : ℕ) → leb a u ≡ leb b u) → a ≡ b
same_first a b h = ground (arith, h a, h b)

-- The two searches agree: from any instant of the date that is at most 36 hours after its start,
-- the second one finds what the first one does.
pub civil_start-day_start :
    (loc : Location) (guess noon : ℕ)
    → IsOrderly loc
    → 3 ≤ date_of loc noon
    → noon ≤ day_start loc guess (date_of loc noon) + 36 * 3600
    → civil_start loc noon ≡ day_start loc guess (date_of loc noon)
unfolding civil_start has_reached
civil_start-day_start loc guess noon orderly late near =
    let date = date_of loc noon in
    let first = day_start-first loc guess date orderly late in
    let same = λ (u : ℕ).
      let h : not (ltb (date_of loc u) date) ≡ leb date (date_of loc u) = ground arith in h in
    same_first _ (day_start loc guess date) (λ u.
      sym (
        bisect-first (noon - (noon - 36 * 3600)) (λ at. not (ltb (date_of loc at) date))
          (noon - 36 * 3600) noon (omega arith) (omega arith)
          (λ a b later h. ground (arith, orderly.forward a b later, h)) (ground arith)
          (λ v early. ground (arith, first v, near, early)) u)
      ∙ same u
      ∙ first u)
