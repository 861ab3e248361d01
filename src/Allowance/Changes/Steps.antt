-- ===== src/Allowance/Changes/Steps.antt =====
-- What each step of a change that succeeds has found: internal/allocations/changes.go, schedule.go.
use sub_lane.Base.{
  ℕ, ◌≤◌, ◌<◌, String, ◌≡◌, sym, ap, ◌∙◌, inl, inr, Bool, true, false, not, ◌||◌, Option, some,
  arith, ltb, leb, if◌then◌else◌, Option-cases, ◌==◌, string_eq, nat_eq,
}
use sub_lane.Failure.{
  seq_ok, err, ok, plain, unless_ok, bind_ok, ok_injective, version_required, version_conflict,
  effective_conflict, state_conflict,
}
use sub_lane.Allowance.{Config}
use sub_lane.Allowance.Revisions.{Saved, Revisions, next_row, delete_pending_at}
use sub_lane.Allowance.Changes.{
  Raw, missing, null_value, unreadable_value, whole, Conditions, Scheme, Readings, read_scheme,
  condition, effective_condition, is_missing, is_same_id, check_versions, has_begun, target_time,
  check_time, finish_change, is_unexpected, settle_change, last_second,
}

expected_lem :
    (raw : Raw) (a : Option ℕ) (r : Saved)
    → condition raw ≡ ok a
    → is_same_id a (some r) ≡ true
    → raw ≡ whole r.revision.id
unfolding condition is_same_id
expected_lem missing a r h same = ground (arith, h, same)
expected_lem null_value a r h same = ground (arith, h, same)
expected_lem unreadable_value a r h same = ground (arith, h)
expected_lem (whole n) a r h same = ground (arith, h, same)

-- The conditions name the revision that the change replaces, and the current one.
pub check_versions-ok :
    (x : Conditions) (s : Scheme)
    → check_versions x s ≡ ok tt
    → ((c : Saved) → s.current ≡ some c → x.expected_current ≡ whole c.revision.id)
      × ((n : Saved) → s.next ≡ some n → x.expected_next ≡ whole n.revision.id)
unfolding check_versions
check_versions-ok x s h =
    let (present, h1) =
      unless_ok (is_missing x.expected_current || is_missing x.expected_next)
        (plain version_required) _ tt h in
    let (a, read, h2) = bind_ok (condition x.expected_current) _ tt h1 in
    let (b, read', h3) = bind_ok (condition x.expected_next) _ tt h2 in
    (
      λ c known. expected_lem x.expected_current a c read (ground (arith, h3, known)),
      λ n known. expected_lem x.expected_next b n read' (ground (arith, h3, known)),
    )

effective_condition-ok : (raw : Raw) (e : ℕ) → effective_condition raw ≡ ok (some e) → raw ≡ whole e
unfolding effective_condition condition
effective_condition-ok missing e h = ground (arith, h)
effective_condition-ok null_value e h = ground (arith, h)
effective_condition-ok unreadable_value e h = ground (arith, h)
effective_condition-ok (whole n) e h = ground (arith, h)

settled :
    (target e at now : ℕ) (begun : Bool)
    → (if not (e == target) || leb target now || begun
        then err (plain effective_conflict)
        else ok target)
      ≡ ok at
    → (e ≡ at) × (target ≡ at) × (now < at)
settled target e at now begun h = ground (arith, h)

-- The time that is agreed is the one that the request expects, and is to come.
pub check_time-ok :
    (closing : Config → ℕ → ℕ) (x : Conditions) (s : Scheme) (action : String) (now at : ℕ)
    → check_time closing x s action now ≡ ok at
    → (x.expected_effective_at ≡ whole at) × (target_time closing s action now ≡ ok at) × (now < at)
unfolding check_time
check_time-ok closing x s action now at h =
    let (expected, read, h1) = bind_ok (effective_condition x.expected_effective_at) _ at h in
    elim (Option-cases expected) [
      | inl none' ↦ absurd (ground (arith, h1, none'))
      | inr (e, given) ↦
          let (target, found, h2) =
            bind_ok (target_time closing s action now) _ at (rw given at h1) in
          let (agreed, same, ahead) = settled target e at now (has_begun s now) h2 in
          (
            effective_condition-ok x.expected_effective_at e (read ∙ ap ok given) ∙ ap whole agreed,
            found ∙ ap ok same,
            ahead,
          )
    ]

put_off :
    (begun : Bool) (from next at : ℕ)
    → (if begun
        then err (plain effective_conflict)
        else if leb next from || ltb last_second next
        then err (plain effective_conflict)
        else ok next)
      ≡ ok at
    → (from < at) × (at ≤ last_second)
put_off begun from next at h = ground (arith, h)

-- A revision is put off to a later time, and not past the last second.
pub target_time-later :
    (closing : Config → ℕ → ℕ) (s : Scheme) (n : Saved) (now at : ℕ)
    → s.next ≡ some n
    → target_time closing s "reschedule" now ≡ ok at
    → (n.effective_at < at) × (at ≤ last_second)
unfolding target_time
target_time-later closing s n now at known h =
    put_off (leb n.effective_at now) n.effective_at _ at (rw (target_time, known) at h)

pub finish_change-ok :
    (o : Readings) (s : Scheme) (x : Conditions) (action : String) (t u : Revisions) (out : Scheme)
    → finish_change o s x action t ≡ ok (u, out)
    → (t ≡ u) × (read_scheme (o.now 4) t ≡ out) × (has_begun s (o.now 5) ≡ false)
unfolding finish_change
finish_change-ok o s x action t u out h =
    let (a, h1) = unless_ok (has_begun s (o.now 3)) (plain version_conflict) _ (u, out) h in
    let (b, h2) = seq_ok o.read_back _ (u, out) h1 in
    let (c, h3) = unless_ok (has_begun s (o.now 5)) (plain version_conflict) _ (u, out) h2 in
    let (d, h4) = seq_ok _ _ (u, out) h3 in
    let (e, h5) = seq_ok o.committed _ (u, out) h4 in
    let same = ok_injective h5 in
    (ap (λ (p : Revisions × Scheme). p.0) same, ap (λ (p : Revisions × Scheme). p.1) same, c)

pub settle_change-ok :
    (o : Readings) (s : Scheme) (n : Saved) (action : String) (x : Conditions) (t : Revisions)
    (replacement : Option ℕ) (u : Revisions) (out : Scheme)
    → settle_change o s n action x (t, replacement) ≡ ok (u, out)
    → (record t { rows = delete_pending_at n.effective_at (o.now 0) o.captured t.rows } ≡ u)
      × (is_unexpected replacement (next_row (o.now 0) u.rows) ≡ false)
      × (read_scheme (o.now 4) u ≡ out)
      × (has_begun s (o.now 5) ≡ false)
unfolding settle_change
settle_change-ok o s n action x t replacement u out h =
    let rows = delete_pending_at n.effective_at (o.now 0) o.captured t.rows in
    let (a, h1) = seq_ok o.deleted _ (u, out) h in
    let (b, h2) = seq_ok o.found _ (u, out) h1 in
    let (c, h3) =
      unless_ok (is_unexpected replacement (next_row (o.now 0) rows)) (plain state_conflict) _
        (u, out) h2 in
    let (d, h4) = seq_ok o.audited _ (u, out) h3 in
    let (e, h5) = seq_ok _ _ (u, out) h4 in
    let (same, back, in_time) = finish_change-ok o s x _ (record t { rows = rows }) u out h5 in
    (
      same,
      ap (λ (v : Revisions). is_unexpected replacement (next_row (o.now 0) v.rows)) (sym same) ∙ c,
      ap (read_scheme (o.now 4)) (sym same) ∙ back,
      in_time,
    )
