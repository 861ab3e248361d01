-- ===== src/Allowance/Preview.antt =====
-- What a change is shown to do before it is made: `Preview` of internal/allocations/schedule.go.
use text.Mathlib.TextEquality.{eq_iff}
use sub_lane.Base.{
  ℕ, ◌+◌, ◌-◌, ◌/◌, ◌≤◌, ◌<◌, String, ◌≡◌, refl, sym, ap, subst, ◌∙◌, ltb, Bool-cases, Option-cases,
  inl, inr, Bool, false, not, ◌&&◌, ◌||◌, none, some, arith, leb, if◌then◌else◌, ◌==◌, string_eq,
  nat_eq,
}
use sub_lane.Failure.{
  Result, err, ok, plain, ◌>>◌, ◌>>=◌, unless, unless_ok, bind_ok, ok_injective, allocation_input,
  effective_conflict,
}
use sub_lane.Allowance.{Config, duration_window}
use sub_lane.Allowance.Laws.{duration_window_lem, duration_window_stable, quotient_unique}
use sub_lane.Allowance.Changes.Steps.{target_time-later}
use sub_lane.Allowance.Revisions.{Saved}
use sub_lane.Allowance.Changes.{
  next_effective, longest_window, whole, Conditions, Scheme, effective_condition, condition,
  target_time, check_time, has_begun, is_some, anchor_of, last_second,
}

-- The anchor of the revision that is to come or else of the current one, which are not both missing
-- where there is a time.
unfoldable pub proposed_anchor : Scheme → String → ℕ → ℕ
proposed_anchor s action at = if action == "replace" then at else elim s.next [
  | none ↦ elim s.current [ none ↦ 0 | some c ↦ c.revision.anchor ]
  | some n ↦
      if action == "reschedule"
        && (not (is_some s.current) || not (n.revision.anchor == anchor_of s n))
      then at
      else n.revision.anchor
]

-- Preview: the time and the anchor that are proposed.
unfoldable pub preview : (Config → ℕ → ℕ) → Scheme → String → ℕ → Result (ℕ × ℕ)
unfolding target_time proposed_anchor
preview closing s action now =
    unless (not (action == "schedule") && not (action == "reschedule") && not (action == "replace"))
      (plain allocation_input)
    >> (target_time closing s action now >>= λ at. ok (at, proposed_anchor s action at))

agrees :
    (target e now : ℕ) (begun : Bool)
    → e ≡ target
    → now < target
    → begun ≡ false
    → (if not (e == target) || leb target now || begun
        then err (plain effective_conflict)
        else ok target)
      ≡ ok e
agrees target e now begun same ahead open' = ground (arith, same, ahead, open')

whole-effective_condition : (n : ℕ) → n ≤ last_second → effective_condition (whole n) ≡ ok (some n)
unfolding effective_condition condition
whole-effective_condition n bounded = ground (arith, bounded)

-- The end of a duration's window is the same at every later instant before it.
duration_stop-steady :
    (now later anchor seconds : ℕ)
    → now ≤ later
    → later < (duration_window now anchor seconds).stop
    → (duration_window later anchor seconds).stop ≡ (duration_window now anchor seconds).stop
unfolding duration_window
duration_stop-steady now later anchor seconds ordered until = elim (Bool-cases (ltb now anchor)) [
  | inl early ↦ elim (Bool-cases (ltb later anchor)) [
    | inl still ↦ rw (early, still, duration_window) refl
    | inr begun ↦
        let whole_window : (duration_window now anchor seconds).stop ≡ anchor + seconds =
          rw (early, duration_window) refl in
        let first : (later - anchor) / seconds ≡ 0 =
          quotient_unique (later - anchor) 0 seconds (omega arith)
            (ground (arith, begun, until, whole_window)) in
        rw (early, begun, duration_window, first) (omega arith)
  ]
  | inr begun ↦ elim (Bool-cases (ltb 0 seconds)) [
    | inl some' ↦
        let lasts = (duration_window_lem now anchor seconds (ground (arith, some'))) in
        let same =
          duration_window_stable now later anchor seconds (ground (arith, some'))
            (ground (arith, begun)) (ground (arith, lasts, begun, ordered)) until in
        let again = duration_window_lem later anchor seconds (ground (arith, some')) in
        omega (arith, same, lasts.0, again.0)
    | inr none' ↦
        let nothing : seconds ≡ 0 = ground (arith, none') in
        let stops : (duration_window now anchor 0).stop ≡ anchor =
          rw (begun, duration_window) (omega arith) in
        absurd (
          ground (
            arith,
            begun,
            ordered,
            subst (λ n. later < (duration_window now anchor n).stop) nothing until,
            stops,
          ))
  ]
]

next_effective-steady :
    (closing : Config → ℕ → ℕ) (c : Config) (now later anchor : ℕ)
    → (later < closing c now → closing c later ≡ closing c now)
    → now ≤ later
    → later < next_effective closing c now anchor
    → next_effective closing c later anchor ≡ next_effective closing c now anchor
unfolding next_effective
next_effective-steady closing c now later anchor steady ordered until =
    elim (Bool-cases (c.period == "durations")) [
      | inl durations ↦
          rw (next_effective, durations)
            (duration_stop-steady now later anchor (longest_window c.windows) ordered
              (rw (next_effective, durations) at until))
      | inr calendar ↦
          rw (next_effective, calendar) (steady (rw (next_effective, calendar) at until))
    ]

-- The end of the calendar's window is the same at every later instant before it.
abbrev pub IsSteady : (Config → ℕ → ℕ) → Type 0
IsSteady closing =
    (c : Config) (now later : ℕ)
    → now ≤ later
    → later < closing c now
    → closing c later ≡ closing c now

has_begun-next :
    (s : Scheme) (n : Saved) (now : ℕ)
    → s.next ≡ some n
    → has_begun s now ≡ false
    → now < n.effective_at
has_begun-next s n now known h = ground (arith, rw (has_begun, known) at h)

put_off-steady :
    (closing : Config → ℕ → ℕ) (s : Scheme) (now at later : ℕ)
    → target_time closing s "reschedule" now ≡ ok at
    → now ≤ later
    → has_begun s later ≡ false
    → (target_time closing s "reschedule" later ≡ ok at) × (later < at) × (at ≤ last_second)
unfolding target_time
put_off-steady closing s now at later found ordered waiting = elim (Option-cases s.next) [
  | inl none' ↦ absurd (ground (arith, rw (target_time, none') at found))
  | inr (n, known) ↦
      let pending = has_begun-next s n later known waiting in
      let (after, bounded) = target_time-later closing s n now at known found in
      let before : leb n.effective_at now ≡ false = ground (arith, pending, ordered) in
      let still : leb n.effective_at later ≡ false = ground (arith, pending) in
      (
        rw (target_time, known, still) (rw (target_time, known, before) at found),
        omega (arith, pending, after),
        bounded,
      )
]

schedule-steady :
    (closing : Config → ℕ → ℕ) (s : Scheme) (action : String) (now at later : ℕ)
    → IsSteady closing
    → (action == "reschedule") ≡ false
    → target_time closing s action now ≡ ok at
    → now ≤ later
    → has_begun s later ≡ false
    → (s.next ≡ none → later < at)
    → (target_time closing s action later ≡ ok at) × (later < at)
unfolding target_time
schedule-steady closing s action now at later steady other found ordered waiting ahead =
    elim (Option-cases s.next) [
      | inr (n, known) ↦
          let same = ok_injective (rw (target_time, other, known) at found) in
          (
            rw (target_time, other, known) (ap ok same),
            omega (arith, same, has_begun-next s n later known waiting),
          )
      | inl none' ↦ elim (Option-cases s.current) [
        | inl missing ↦ absurd (ground (arith, rw (target_time, other, none', missing) at found))
        | inr (c, known) ↦
            let same = ok_injective (rw (target_time, other, none', known) at found) in
            let until = ahead none' in
            let again =
              next_effective-steady closing c.revision.config now later c.revision.anchor
                (steady c.revision.config now later ordered) ordered (omega (arith, same, until)) in
            (rw (target_time, other, none', known) (ap ok (again ∙ same)), until)
      ]
    ]

target_time-steady :
    (closing : Config → ℕ → ℕ) (s : Scheme) (action : String) (now at later : ℕ)
    → IsSteady closing
    → target_time closing s action now ≡ ok at
    → now ≤ later
    → has_begun s later ≡ false
    → (s.next ≡ none → later < at)
    → ((action == "reschedule") ≡ false → at ≤ last_second)
    → (target_time closing s action later ≡ ok at) × (later < at) × (at ≤ last_second)
target_time-steady closing s action now at later steady found ordered waiting ahead bounded =
    elim (Bool-cases (action == "reschedule")) [
      | inr other ↦
          let (again, until) =
            schedule-steady closing s action now at later steady other found ordered waiting
              ahead in
          (again, until, bounded other)
      | inl moved ↦
          let is : action ≡ "reschedule" = (eq_iff action "reschedule").0 moved in
          subst (λ a. (target_time closing s a later ≡ ok at) × (later < at) × (at ≤ last_second))
            (sym is)
            (put_off-steady closing s now at later
              (subst (λ a. target_time closing s a now ≡ ok at) is found) ordered waiting)
    ]

-- A change that names the time of its preview passes the check of the time at the preview's instant
-- and at every later one, while the revision to come has not begun, and, where there is none to come,
-- until the time itself: where the end of a window of the calendar is steady within it, and the time
-- of a change that is not put off is one that a request can name.
pub preview-check_time :
    (closing : Config → ℕ → ℕ) (s : Scheme) (action : String) (x : Conditions)
    (now at anchor later : ℕ)
    → IsSteady closing
    → preview closing s action now ≡ ok (at, anchor)
    → x.expected_effective_at ≡ whole at
    → now ≤ later
    → has_begun s later ≡ false
    → (s.next ≡ none → later < at)
    → ((action == "reschedule") ≡ false → at ≤ last_second)
    → check_time closing x s action later ≡ ok at
unfolding preview check_time
preview-check_time closing s action x now at anchor later steady shown named ordered waiting ahead
      bounded =
    let (known, h1) =
      unless_ok
        (not (action == "schedule") && not (action == "reschedule") && not (action == "replace"))
        (plain allocation_input) _ (at, anchor) shown in
    let (target, found, h2) = bind_ok (target_time closing s action now) _ (at, anchor) h1 in
    let same : target ≡ at = ap (λ (q : ℕ × ℕ). q.0) (ok_injective h2) in
    let (again, until, sayable) =
      target_time-steady closing s action now at later steady (found ∙ ap ok same) ordered waiting
        ahead bounded in
    rw (named, whole-effective_condition at sayable, check_time, again)
      (agrees at at later (has_begun s later) refl until waiting)
