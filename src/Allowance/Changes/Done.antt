-- ===== src/Allowance/Changes/Done.antt =====
-- What a change of the schedule that succeeds leaves: `ChangeSchedule` of internal/allocations/schedule.go.
use sub_lane.Base.{
  ℕ, ◌+◌, ◌≤◌, ◌<◌, String, ◌≡◌, refl, sym, ap, subst, ◌∙◌, inl, inr, Bool, false, not, ◌&&◌, ◌||◌,
  Option, none, some, List, [], ◌∷◌, keep, In, arith, ltb, leb, if◌then◌else◌, Bool-cases,
  Option-cases, ◌==◌, string_eq, nat_eq,
}
use sub_lane.Failure.{
  seq_ok, ok, plain, unless_ok, bind_ok, ok_injective, allocation_input, effective_conflict,
  initial_schedule,
}
use sub_lane.Allowance.Revisions.{
  Saved, Revisions, current_row, next_row, append_revision, delete_pending_at, current_row-pending,
  current_row-delete, next_row-none, next_row-IsFirst, IsFirst,
}
use sub_lane.Allowance.Changes.{
  whole, Conditions, Scheme, Readings, read_scheme, check_versions, has_begun, check_time, is_some,
  anchor_of, replace_pending, is_unexpected, settle_change, change_schedule,
}
use sub_lane.Allowance.Changes.Steps.{
  check_versions-ok, check_time-ok, target_time-later, settle_change-ok,
}

-- A change goes through with a revision that was to come, which the request names.
abbrev Opens : Readings → String → Conditions → Revisions → Revisions → Scheme → Saved → Type 0
Opens o action x t u out n =
    (next_row (o.now 0) t.rows ≡ some n)
    × (x.expected_next ≡ whole n.revision.id)
    × (o.now 0 < n.effective_at)
    × ((c : Saved)
        → current_row (o.now 0) t.rows ≡ some c
        → x.expected_current ≡ whole c.revision.id)
    × ((action == "cancel" && not (is_some (current_row (o.now 0) t.rows))) ≡ false)
    × ((replaced : Revisions × Option ℕ) × (replace_pending o (read_scheme (o.now 0) t) n action x t
          ≡ ok replaced)
        × (settle_change o (read_scheme (o.now 0) t) n action x replaced ≡ ok (u, out)))

opens :
    (o : Readings) (action : String) (x : Conditions) (t u : Revisions) (out : Scheme)
    → change_schedule o action x t ≡ ok (u, out)
    → (n : Saved) × Opens o action x t u out n
unfolding change_schedule read_scheme
opens o action x t u out h =
    let s = read_scheme (o.now 0) t in
    let (a, h1) =
      unless_ok (not (action == "cancel") && not (action == "reschedule")) (plain allocation_input)
        _ (u, out) h in
    let (b, h2) = seq_ok o.opened _ (u, out) h1 in
    let (versions, h3) = seq_ok (check_versions x s) _ (u, out) h2 in
    let (current, next) = check_versions-ok x s versions in
    elim (Option-cases (next_row (o.now 0) t.rows)) [
      | inl none' ↦ absurd (ground (arith, h3, none'))
      | inr (n, known) ↦
          let (pending, h4) =
            unless_ok (leb n.effective_at (o.now 0)) (plain effective_conflict) _ (u, out)
              (rw known at h3) in
          let (may, h5) =
            unless_ok (action == "cancel" && not (is_some s.current)) (plain initial_schedule) _
              (u, out) h4 in
          let (replaced, first, last) = bind_ok (replace_pending o s n action x t) _ (u, out) h5 in
          (n, (known, next n known, ground (arith, pending), current, may, (replaced, first, last)))
    ]

pub has_begun-late :
    (s : Scheme) (n : Saved) (now : ℕ)
    → s.next ≡ some n
    → has_begun s now ≡ false
    → now < n.effective_at
has_begun-late s n now known h = ground (arith, rw (has_begun, known) at h)

-- What a cancelled change leaves.
pub record IsCancelled (o : Readings) (x : Conditions) (t u : Revisions) : Type 0 where
  pub was_current :
      (c : Saved) × (current_row (o.now 0) t.rows ≡ some c)
      × (x.expected_current ≡ whole c.revision.id)
  pub was_next :
      (n : Saved) × (next_row (o.now 0) t.rows ≡ some n)
      × (x.expected_next ≡ whole n.revision.id)
      × (o.now 5 < n.effective_at)
  pub none_pending : (r : Saved) → In r u.rows → r.effective_at ≤ o.now 0
  pub past_kept : (time : ℕ) → time ≤ o.now 0 → current_row time u.rows ≡ current_row time t.rows

-- What a rescheduled one leaves.
pub record IsRescheduled (o : Readings) (x : Conditions) (t u : Revisions) : Type 0 where
  pub was_next : Saved
  pub known : next_row (o.now 0) t.rows ≡ some was_next
  pub named : x.expected_next ≡ whole was_next.revision.id
  pub in_time : o.now 5 < was_next.effective_at
  pub replaced_by : Saved
  pub is_next : IsFirst (o.now 0) u.rows replaced_by
  pub is_new : replaced_by.revision.id ≡ t.last_id + 1
  pub same_config : replaced_by.revision.config ≡ was_next.revision.config
  pub agreed : x.expected_effective_at ≡ whole replaced_by.effective_at
  pub put_off : was_next.effective_at < replaced_by.effective_at
  pub past_kept : (time : ℕ) → time ≤ o.now 0 → current_row time u.rows ≡ current_row time t.rows

none_expected : (r : Option Saved) → is_unexpected none r ≡ false → r ≡ none
unfolding is_unexpected
none_expected none h = refl
none_expected (some r) h = ground (arith, h)

-- If a change that is cancelled succeeds, the request named the current revision and the one that
-- was to come, which had not begun: nothing is pending any more, and what was current at any time
-- so far is so still.
pub change_schedule-IsCancelled :
    (o : Readings) (x : Conditions) (t u : Revisions) (out : Scheme)
    → change_schedule o "cancel" x t ≡ ok (u, out)
    → IsCancelled o x t u
unfolding read_scheme replace_pending
change_schedule-IsCancelled o x t u out h =
    let s = read_scheme (o.now 0) t in
    let (n, (known, next, pending, current, may, (replaced, first, last))) =
      opens o "cancel" x t u out h in
    let same = ok_injective first in
    let (rows, expected, back, late) =
      settle_change-ok o s n "cancel" x t none u out
        (subst (λ p. settle_change o s n "cancel" x p ≡ ok (u, out)) (sym same) last) in
    elim (Option-cases (current_row (o.now 0) t.rows)) [
      | inl none' ↦ absurd (ground (arith, rw none' at may))
      | inr (c, found) ↦ record {
        was_current = (c, found, current c found);
        was_next = (n, known, next, has_begun-late s n (o.now 5) known late);
        none_pending = λ r. next_row-none (o.now 0) u.rows r (none_expected _ expected);
        past_kept = λ time early.
            ap (λ (v : Revisions). current_row time v.rows) (sym rows)
            ∙ current_row-delete time n.effective_at (o.now 0) o.captured t.rows early;
      }
    ]

-- AUTOINCREMENT: no identifier is above the last that was given out.
abbrev pub IsNumbered : Revisions → Type 0
IsNumbered t = (r : Saved) → In r t.rows → r.revision.id ≤ t.last_id

keep-In : (p : Saved → Bool) (r : Saved) (rows : List Saved) → In r (keep p rows) → In r rows
unfolding keep
keep-In p r [] m = m
keep-In p r (x ∷ rows) m = elim (Bool-cases (p x)) [
  | inl kept ↦ elim (rw (keep, kept) at m) [
    | inl here ↦ inl here
    | inr there ↦ inr (keep-In p r rows there)
  ]
  | inr gone ↦ inr (keep-In p r rows (rw (keep, gone) at m))
]

-- The row that is found is the new one, by its identifier.
newest :
    (p : Saved → Bool) (new r : Saved) (t : Revisions)
    → IsNumbered t
    → new.revision.id ≡ t.last_id + 1
    → In r (keep p (new ∷ t.rows))
    → r.revision.id ≡ t.last_id + 1
    → r ≡ new
newest p new r t numbered fresh m h = elim (keep-In p r (new ∷ t.rows) m) [
  | inl here ↦ here
  | inr there ↦ absurd (omega (arith, h, numbered r there))
]

some_expected :
    (id : ℕ) (found : Option Saved)
    → is_unexpected (some id) found ≡ false
    → (r : Saved) × (found ≡ some r) × (r.revision.id ≡ id)
unfolding is_unexpected
some_expected id none h = absurd (ground (arith, h))
some_expected id (some r) h = (r, refl, ground (arith, h))

abbrev moved : Scheme → Saved → ℕ → ℕ
moved s n at =
    if not (is_some s.current) || not (n.revision.anchor == anchor_of s n)
    then at
    else n.revision.anchor

replace_pending-ok :
    (o : Readings) (s : Scheme) (n : Saved) (x : Conditions) (t : Revisions)
    (replaced : Revisions × Option ℕ)
    → s.next ≡ some n
    → replace_pending o s n "reschedule" x t ≡ ok replaced
    → (at : ℕ) × (x.expected_effective_at ≡ whole at)
      × (n.effective_at < at)
      × ((append_revision at (moved s n at) n.revision.config t, some (t.last_id + 1)) ≡ replaced)
unfolding replace_pending append_revision
replace_pending-ok o s n x t replaced known h =
    let (at, checked, h1) =
      bind_ok (check_time o.closing x s "reschedule" (o.now 1)) _ replaced h in
    let (inserted, h2) = seq_ok o.inserted _ replaced h1 in
    let (agreed, target, ahead) = check_time-ok o.closing x s "reschedule" (o.now 1) at checked in
    let (later, bounded) = target_time-later o.closing s n (o.now 1) at known target in
    (at, agreed, later, ok_injective h2)

-- If a change that is rescheduled succeeds, where no identifier is above the last: the request named
-- the revision that was to come, which had not begun, and the time to which it is put off, which is
-- later; the first revision that is now pending is a new one, with the same configuration, at that
-- time; and what was current at any time so far is so still.
pub change_schedule-IsRescheduled :
    (o : Readings) (x : Conditions) (t u : Revisions) (out : Scheme)
    → IsNumbered t
    → change_schedule o "reschedule" x t ≡ ok (u, out)
    → IsRescheduled o x t u
unfolding read_scheme append_revision delete_pending_at
change_schedule-IsRescheduled o x t u out numbered h =
    let s = read_scheme (o.now 0) t in
    let (n, (known, next, pending, current, may, (replaced, first, last))) =
      opens o "reschedule" x t u out h in
    let (at, agreed, later, same) = replace_pending-ok o s n x t replaced known first in
    let v = append_revision at (moved s n at) n.revision.config t in
    let (rows, expected, back, late) =
      settle_change-ok o s n "reschedule" x v (some (t.last_id + 1)) u out
        (subst (λ p. settle_change o s n "reschedule" x p ≡ ok (u, out)) (sym same) last) in
    let (r, found, fresh) = some_expected (t.last_id + 1) (next_row (o.now 0) u.rows) expected in
    let first_row = next_row-IsFirst (o.now 0) u.rows r found in
    let new : Saved = record {
      effective_at = at;
      revision = record { id = t.last_id + 1; config = n.revision.config; anchor = moved s n at };
    } in
    let is_new : r ≡ new =
      newest
        (λ r. not (
          r.effective_at == n.effective_at
          && ltb (o.now 0) r.effective_at
          && not (o.captured r.revision.id)))
        new r t numbered refl (subst (λ (w : Revisions). In r w.rows) (sym rows) first_row.0)
        fresh in
    record {
      was_next = n;
      known = known;
      named = next;
      in_time = has_begun-late s n (o.now 5) known late;
      replaced_by = r;
      is_next = first_row;
      is_new = fresh;
      same_config = ap (λ (w : Saved). w.revision.config) is_new;
      agreed = agreed ∙ ap (λ (w : Saved). whole w.effective_at) (sym is_new);
      put_off = subst (λ (w : Saved). n.effective_at < w.effective_at) (sym is_new) later;
      past_kept = λ time early.
          ap (λ (w : Revisions). current_row time w.rows) (sym rows)
          ∙ current_row-delete time n.effective_at (o.now 0) o.captured v.rows early
          ∙ current_row-pending time new t.rows (omega (arith, early, pending, later));
    }
