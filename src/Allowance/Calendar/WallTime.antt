-- ===== src/Allowance/Calendar/WallTime.antt =====
-- `wallTime` of internal/allocations/calendar.go finds the first instant of a date at which the
-- clock shows the time or a later one.
use sub_lane.Base.{
  ℕ, zero, suc, ◌+◌, ◌-◌, ◌*◌, ◌≤◌, ◌<◌, ◌≡◌, refl, true, false, Option, none, some, List, [], ◌∷◌,
  arith, ltb, max, Bool-cases, Option-cases, inl, inr,
}
use sub_lane.Timezone.{Location, zone_from, zone_at, clock, day, day_start}
use sub_lane.Timezone.Starts.{IsOrderly, day_start-le}
use sub_lane.Allowance.Calendar.{boundary_of, walk, wall_time}

-- The first instant of an interval from which the clock shows what is wanted, or its end.
pub record IsFirst (loc : Location) (want start stop at : ℕ) : Type 0 where
  pub after : start ≤ at
  pub within : at ≤ stop
  pub shown : at < stop → want ≤ clock loc at
  pub early : (u : ℕ) → start ≤ u → u < at → clock loc u < want

-- A zone ends after each of its instants, and has one offset up to its end.
zone_from-end :
    (offset : ℕ) (changes : List (ℕ × ℕ)) (at bound : ℕ)
    → (zone_from offset changes at).1 ≡ some bound
    → at < bound
unfolding zone_from
zone_from-end offset [] at bound h = absurd (ground arith)
zone_from-end offset ((since, next) ∷ changes) at bound h = elim (Bool-cases (ltb at since)) [
  | inl before ↦
      let same : some since ≡ some bound = rw (before, zone_from) at h in
      ground (arith, before, same)
  | inr past ↦ zone_from-end next changes at bound (rw (past, zone_from) at h)
]

zone_from-same :
    (offset : ℕ) (changes : List (ℕ × ℕ)) (at u : ℕ)
    → at ≤ u
    → ((bound : ℕ) → (zone_from offset changes at).1 ≡ some bound → u < bound)
    → (zone_from offset changes u).0 ≡ (zone_from offset changes at).0
unfolding zone_from
zone_from-same offset [] at u later within = refl
zone_from-same offset ((since, next) ∷ changes) at u later within =
    elim (Bool-cases (ltb at since)) [
      | inl before ↦
          let inside : u < since = within since (rw (before, zone_from) refl) in
          let still : ltb u since ≡ true = ground arith in rw (before, still, zone_from) refl
      | inr past ↦
          let too : ltb u since ≡ false = ground (arith, past) in
          rw (past, too, zone_from)
            (zone_from-same next changes at u later
              (λ bound h. within bound (rw (past, zone_from) h)))
    ]

boundary_facts :
    (found : Option ℕ) (stop : ℕ)
    → (boundary_of found stop ≤ stop)
      × ((u : ℕ) → u < boundary_of found stop → (bound : ℕ) → found ≡ some bound → u < bound)
unfolding boundary_of
boundary_facts none stop = (omega arith, λ u early bound h. absurd (ground arith))
boundary_facts (some b) stop = (ground arith, λ u early bound h. ground (arith, early, h))

zone_same :
    (loc : Location) (stop at u : ℕ)
    → at ≤ u
    → u < boundary_of (zone_at loc at).1 stop
    → (zone_at loc u).0 ≡ (zone_at loc at).0
unfolding zone_at
zone_same loc stop at u later inside =
    zone_from-same loc.first loc.changes at u later
      ((boundary_facts (zone_from loc.first loc.changes at).1 stop).1 u inside)

boundary_after :
    (loc : Location) (stop at : ℕ) → at < stop → at < boundary_of (zone_at loc at).1 stop
unfolding zone_at boundary_of
boundary_after loc stop at room = elim (Option-cases (zone_from loc.first loc.changes at).1) [
  | inl none' ↦ rw (none', boundary_of) room
  | inr (bound, known) ↦
      let ends = zone_from-end loc.first loc.changes at bound known in
      rw (known, boundary_of) (ground (arith, ends))
]

-- What the loop knows of a segment: its offset is the one in effect throughout.
module _ (loc : Location) (want stop segment boundary offset : ℕ)
    (same : (u : ℕ) → segment ≤ u → u < boundary → (zone_at loc u).0 ≡ offset) where
  found_in_segment :
      boundary ≤ stop
      → max (want - offset) segment < boundary
      → IsFirst loc want segment stop (max (want - offset) segment)
  unfolding clock
  found_in_segment inside found = record {
    after = ground arith;
    within = omega arith;
    shown = λ early. ground (arith, same (max (want - offset) segment), found);
    early = λ u from before. ground (arith, same u, found);
  }

  not_in_segment :
      (at : ℕ)
      → segment < boundary
      → boundary ≤ max (want - offset) segment
      → IsFirst loc want boundary stop at
      → IsFirst loc want segment stop at
  unfolding clock
  not_in_segment at room missed rest = record {
    after = omega (arith, rest.after);
    within = rest.within;
    shown = rest.shown;
    early = λ u from before. elim (Bool-cases (ltb u boundary)) [
      | inl here ↦ ground (arith, same u, missed)
      | inr later ↦ rest.early u (ground arith) before
    ];
  }

at_end :
    (loc : Location) (want stop segment : ℕ) → segment ≡ stop → IsFirst loc want segment stop stop
at_end loc want stop segment over = record {
  after = omega arith;
  within = omega arith;
  shown = λ early. absurd (omega arith);
  early = λ u from before. absurd (omega arith);
}

walk-IsFirst :
    (fuel : ℕ) (loc : Location) (want stop segment : ℕ)
    → stop - segment ≤ fuel
    → segment ≤ stop
    → IsFirst loc want segment stop (walk fuel loc want stop segment)
unfolding walk
walk-IsFirst zero loc want stop segment enough ordered = at_end loc want stop segment (omega arith)
walk-IsFirst (suc fuel) loc want stop segment enough ordered =
    let zone = zone_at loc segment in
    let boundary : ℕ = boundary_of zone.1 stop in
    let inside = (boundary_facts zone.1 stop).0 in
    let same = λ (u : ℕ) (from : segment ≤ u) (early : u < boundary).
      zone_same loc stop segment u from early in
    elim (Bool-cases (ltb segment stop)) [
      | inr over ↦ rw (over, walk) (at_end loc want stop segment (ground arith))
      | inl room ↦
          let after = boundary_after loc stop segment (ground arith) in
          elim (Bool-cases (ltb (max (want - zone.0) segment) boundary)) [
            | inl found ↦
                rw (room, found, walk)
                  (found_in_segment loc want stop segment boundary zone.0 same inside
                    (ground arith))
            | inr missed ↦
                rw (room, missed, walk)
                  (not_in_segment loc want stop segment boundary zone.0 same _ after (ground arith)
                    (walk-IsFirst fuel loc want stop boundary (omega (arith, after)) inside))
          ]
    ]

-- For a location whose offsets are less than a day and whose dates never go back, and a date from
-- 3 January 1970 on: the wall time of a minute lies from the date's first instant to the next
-- date's, the clock shows the minute or a later one at it, unless it is the next date's first
-- instant, and at no earlier instant of the date.
pub wall_time-IsFirst :
    (loc : Location) (guess : ℕ → ℕ) (date minute : ℕ)
    → IsOrderly loc
    → 3 ≤ date
    → IsFirst loc
        (date * day + minute * 60)
        (day_start loc (guess date) date)
        (day_start loc (guess (date + 1)) (date + 1))
        (wall_time loc guess date minute)
unfolding wall_time
wall_time-IsFirst loc guess date minute orderly late =
    walk-IsFirst _ loc (date * day + minute * 60) (day_start loc (guess (date + 1)) (date + 1))
      (day_start loc (guess date) date) (omega arith)
      (day_start-le loc (guess date) (guess (date + 1)) date (date + 1) orderly late (omega arith))
