-- ===== src/Allowance/Changes.antt =====
-- Changes of a scheme's schedule: internal/allocations/changes.go and `ChangeSchedule` of
-- schedule.go. A change that fails is rolled back.
pub mod Steps
pub mod Done
use sub_lane.Base.{
  ℕ, ◌+◌, ◌*◌, max, String, Bool, true, false, not, ◌&&◌, ◌||◌, Option, none, some, List, [], ◌∷◌,
  ltb, leb, if◌then◌else◌, ◌==◌, string_eq, nat_eq,
}
use sub_lane.Failure.{
  Failure, Result, err, ok, plain, ◌>>◌, ◌>>=◌, unless, allocation_input, allocation_unavailable,
  version_required, version_conflict, effective_required, effective_conflict, state_conflict,
  initial_schedule,
}
use sub_lane.Allowance.{Condition, Config, Revision, duration_window}
use sub_lane.Allowance.Revisions.{
  Saved, Revisions, current_row, next_row, append_revision, delete_pending_at,
}

-- A raw field of a request's conditions, as `condition` tells it apart: none, `null`, a number of
-- 64 bits that is not negative, or anything else.
pub data Raw : Type 0 where
  missing null_value unreadable_value : Raw
  whole : ℕ → Raw

pub record Conditions : Type 0 where
  pub expected_current : Raw
  pub expected_next : Raw
  pub expected_effective_at : Raw

-- Scheme, as readSchemeCore reads it; the identifiers of its write conditions are those of the rows.
pub record Scheme : Type 0 where
  pub current : Option Saved
  pub next : Option Saved

unfoldable pub read_scheme : ℕ → Revisions → Scheme
unfolding current_row next_row
read_scheme now t = record { current = current_row now t.rows; next = next_row now t.rows }

unfoldable pub condition : Raw → Result (Option ℕ)
condition missing = ok none
condition null_value = ok none
condition (whole n) = ok (some n)
condition unreadable_value = err (plain allocation_input)

abbrev pub last_second : ℕ
last_second = 253402300799

unfoldable pub effective_condition : Raw → Result (Option ℕ)
unfolding condition
effective_condition raw = condition raw >>= λ value. elim value [
  | none ↦ ok none
  | some n ↦ if ltb last_second n then err (plain allocation_input) else ok (some n)
]

abbrev pub is_missing : Raw → Bool
is_missing missing = true
is_missing _ = false

-- reflect.DeepEqual of an expected identifier and a row's.
unfoldable pub is_same_id : Option ℕ → Option Saved → Bool
is_same_id none none = true
is_same_id none (some r) = false
is_same_id (some n) none = false
is_same_id (some n) (some r) = n == r.revision.id

unfoldable pub check_versions : Conditions → Scheme → Result (Unit {0})
unfolding condition is_same_id
check_versions x s =
    unless (is_missing x.expected_current || is_missing x.expected_next) (plain version_required)
    >> (condition x.expected_current >>= λ a. condition x.expected_next >>= λ b.
        unless (not (is_same_id a s.current) || not (is_same_id b s.next)) (plain version_conflict))

unfoldable pub longest_window : List Condition → ℕ
longest_window [] = 0
longest_window (c ∷ cs) = max c.seconds (longest_window cs)

-- nextEffective; `closing` is the end of what `Window` finds in the workspace's time zone.
unfoldable pub next_effective : (Config → ℕ → ℕ) → Config → ℕ → ℕ → ℕ
unfolding duration_window longest_window
next_effective closing c now anchor =
    if c.period == "durations"
    then (duration_window now anchor (longest_window c.windows)).stop
    else closing c now

-- Whether the revision that was to come has begun.
abbrev pub has_begun : Scheme → ℕ → Bool
has_begun s now = elim s.next [ none ↦ false | some n ↦ leb n.effective_at now ]

unfoldable pub target_time : (Config → ℕ → ℕ) → Scheme → String → ℕ → Result ℕ
unfolding next_effective
target_time closing s action now =
    if action == "reschedule"
    then elim s.next [
      | none ↦ err (plain effective_conflict)
      | some n ↦
          if leb n.effective_at now
          then err (plain effective_conflict)
          else let base : Saved = elim s.current [ none ↦ n | some c ↦ c ] in
            let at =
              next_effective closing base.revision.config n.effective_at base.revision.anchor in
            if leb at n.effective_at || ltb last_second at
            then err (plain effective_conflict)
            else ok at
    ]
    else elim s.next [
      | some n ↦ ok n.effective_at
      | none ↦ elim s.current [
        | none ↦ err (plain allocation_unavailable)
        | some c ↦ ok (next_effective closing c.revision.config now c.revision.anchor)
      ]
    ]

unfoldable pub check_time : (Config → ℕ → ℕ) → Conditions → Scheme → String → ℕ → Result ℕ
unfolding effective_condition target_time
check_time closing x s action now = effective_condition x.expected_effective_at >>= λ expected.
    elim expected [
      | none ↦ err (plain effective_required)
      | some e ↦ target_time closing s action now >>= λ target.
          if not (e == target) || leb target now || has_begun s now
          then err (plain effective_conflict)
          else ok target
    ]

-- The readings of the clock, in their order, the errors of the database, and the entries that have
-- captured a revision.
pub record Readings : Type 0 where
  pub now : ℕ → ℕ
  pub closing : Config → ℕ → ℕ
  pub captured : ℕ → Bool
  pub opened : Result (Unit {0})
  pub inserted : Result (Unit {0})
  pub deleted : Result (Unit {0})
  pub found : Result (Unit {0})
  pub audited : Result (Unit {0})
  pub read_back : Result (Unit {0})
  pub committed : Result (Unit {0})

-- finishChange, from the clock's third reading on.
unfoldable pub finish_change :
    Readings → Scheme → Conditions → String → Revisions → Result (Revisions × Scheme)
unfolding check_time read_scheme
finish_change o s x action t =
    unless (has_begun s (o.now 3)) (plain version_conflict)
    >> (o.read_back
        >> (unless (has_begun s (o.now 5)) (plain version_conflict)
            >> ((if action == ""
                  then ok tt
                  else (check_time o.closing x s action (o.now 6) >>= λ at. ok tt))
                >> (o.committed >> ok (t, read_scheme (o.now 4) t)))))

-- The anchor of state.Revision, which is the current revision or else the next.
abbrev pub anchor_of : Scheme → Saved → ℕ
anchor_of s n = elim s.current [ none ↦ n.revision.anchor | some c ↦ c.revision.anchor ]

abbrev pub is_some : Option Saved → Bool
is_some none = false
is_some (some r) = true

-- The replacement of a rescheduled revision, with its identifier.
unfoldable pub replace_pending :
    Readings → Scheme → Saved → String → Conditions → Revisions → Result (Revisions × Option ℕ)
unfolding check_time append_revision
replace_pending o s n action x t =
    if action == "reschedule"
    then (check_time o.closing x s action (o.now 1) >>= λ at.
        o.inserted
        >> (let anchor =
              if not (is_some s.current) || not (n.revision.anchor == anchor_of s n)
              then at
              else n.revision.anchor in
            let u = append_revision at anchor n.revision.config t in ok (u, some u.last_id)))
    else ok (t, none)

-- What is pending must be the replacement, or nothing.
unfoldable pub is_unexpected : Option ℕ → Option Saved → Bool
is_unexpected (some id) (some r) = not (r.revision.id == id)
is_unexpected (some id) none = true
is_unexpected none found = is_some found

-- From the removal of the pending revision on.
unfoldable pub settle_change :
    Readings
    → Scheme
    → Saved
    → String
    → Conditions
    → Revisions × Option ℕ
    → Result (Revisions × Scheme)
unfolding delete_pending_at is_unexpected next_row check_time finish_change
settle_change o s n action x (t, replacement) =
    let rows = delete_pending_at n.effective_at (o.now 0) o.captured t.rows in
    o.deleted
    >> (o.found
        >> (unless (is_unexpected replacement (next_row (o.now 0) rows)) (plain state_conflict)
            >> (o.audited
                >> ((if action == "reschedule"
                      then (check_time o.closing x s action (o.now 2) >>= λ at. ok tt)
                      else ok tt)
                    >> finish_change o s x (if action == "reschedule" then action else "")
                        (record t { rows = rows })))))

-- ChangeSchedule, on a table of the revisions of the scheme.
unfoldable pub change_schedule :
    Readings → String → Conditions → Revisions → Result (Revisions × Scheme)
unfolding read_scheme check_versions replace_pending settle_change
change_schedule o action x t =
    let s = read_scheme (o.now 0) t in
    unless (not (action == "cancel") && not (action == "reschedule")) (plain allocation_input)
    >> (o.opened
        >> (check_versions x s >> elim s.next [
          | none ↦ err (plain effective_conflict)
          | some n ↦
              unless (leb n.effective_at (o.now 0)) (plain effective_conflict)
              >> (unless (action == "cancel" && not (is_some s.current)) (plain initial_schedule)
                  >> (replace_pending o s n action x t >>= λ replaced.
                      settle_change o s n action x replaced))
        ]))
