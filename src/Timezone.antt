-- ===== src/Timezone.antt =====
-- The first instant of a civil date: internal/timezone/calendar.go, and the same search in
-- internal/resets/schedule.go. Instants are in seconds. An offset is kept with one day added to it,
-- so that it is positive, and the clock of an instant is that many seconds after it; a civil date
-- is the number of the day that the clock shows, and its order is that of year, month and day.
pub mod Starts
use sub_lane.Base.{
  ℕ, zero, suc, ◌+◌, ◌-◌, ◌*◌, ◌/◌, ◌%◌, Bool, true, false, not, ◌&&◌, Option, none, some, List, [],
  ◌∷◌, ltb, leb, nat_beq, if◌then◌else◌,
}

-- time.Location: the first offset, and the offsets of later zones with the instants from which
-- they hold.
pub record Location : Type 0 where
  pub first : ℕ
  pub changes : List (ℕ × ℕ)

-- Zone and ZoneBounds: the offset in effect, and the end of its zone.
unfoldable pub zone_from : ℕ → List (ℕ × ℕ) → ℕ → ℕ × Option ℕ
zone_from offset [] at = (offset, none)
zone_from offset ((since, next) ∷ changes) at =
    let later = zone_from next changes at in if ltb at since then (offset, some since) else later

unfoldable pub zone_at : Location → ℕ → ℕ × Option ℕ
unfolding zone_from
zone_at loc at = zone_from loc.first loc.changes at

abbrev pub day : ℕ
day = 86400

unfoldable pub clock : Location → ℕ → ℕ
unfolding zone_at
clock loc at = at + (zone_at loc at).0

unfoldable pub date_of : Location → ℕ → ℕ
unfolding clock
date_of loc at = clock loc at / day

-- The loop of both searches; its fuel is the length of the interval.
unfoldable pub bisect : ℕ → (ℕ → Bool) → ℕ → ℕ → ℕ
bisect zero reached lo hi = lo
bisect (suc fuel) reached lo hi =
    let mid = lo + (hi - lo) / 2 in
    let below = bisect fuel reached lo mid in
    let above = bisect fuel reached (mid + 1) hi in
    if ltb lo hi then (if reached mid then below else above) else lo

-- The date of an instant is that of the search, or a later one.
unfoldable pub has_reached : Location → ℕ → ℕ → Bool
unfolding date_of
has_reached loc date at = leb date (date_of loc at)

-- The test of the guess that time.Date makes.
unfoldable pub is_midnight : Location → ℕ → ℕ → Bool
unfolding date_of clock
is_midnight loc date guess =
    nat_beq (date_of loc guess) date
    && ltb (clock loc guess % day) 60
    && not (nat_beq (date_of loc (guess - 1)) date)

-- DayStart; the clock is a day ahead, so `date * day` is midnight of the date and a day.
unfoldable pub day_start : Location → ℕ → ℕ → ℕ
unfolding is_midnight bisect has_reached
day_start loc guess date =
    let base = date * day - day in
    let from = base - 2 * day in
    if is_midnight loc date guess
    then guess
    else bisect (base + 2 * day - from) (has_reached loc date) from (base + 2 * day)

-- civilStart of internal/resets, from a noon.
unfoldable pub civil_start : Location → ℕ → ℕ
unfolding bisect date_of
civil_start loc noon =
    let from = noon - 36 * 3600 in
    bisect (noon - from) (λ at. not (ltb (date_of loc at) (date_of loc noon))) from noon
