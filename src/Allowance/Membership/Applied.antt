-- ===== src/Allowance/Membership/Applied.antt =====
-- What a change of members that succeeds leaves: `UpdateMembers` of internal/allocations/changes.go.
use sub_lane.Base.{
  ℕ, ◌+◌, ◌≤◌, ◌<◌, ◌≡◌, ◌⊎◌, refl, sym, ap, subst, ◌∙◌, inl, inr, true, not, Option, some, List,
  [], ◌∷◌, In, arith, leb, Bool-cases, Option-cases, ◌==◌, string_eq, nat_eq,
}
use sub_lane.Failure.{seq_ok, ok, plain, unless_ok, bind_ok, ok_injective, allocation_input}
use sub_lane.Allowance.{Share, Config, Window, effective_windows}
use sub_lane.Allowance.Normalize.{DraftShare, normalize}
use sub_lane.Allowance.Funding.{check_funding}
use sub_lane.Allowance.Funded.{IsFunded, check_funding_covers}
use sub_lane.Allowance.Revisions.{
  Saved, Revisions, is_newer, current_row, append_revision, current_row-pending,
}
use sub_lane.Allowance.Changes.{whole, Conditions, Scheme, Readings, read_scheme, check_versions}
use sub_lane.Allowance.Changes.Steps.{check_versions-ok, finish_change-ok}
use sub_lane.Allowance.Changes.Done.{IsNumbered, has_begun-late}
use sub_lane.Allowance.Membership.{
  Grants, draft_with, canonical_drafts, same_members, next_config, validate_recipients,
  write_members, apply_members, update_members,
}

current_row-In :
    (now : ℕ) (rows : List Saved) (b : Saved)
    → current_row now rows ≡ some b
    → In b rows × (b.effective_at ≤ now)
unfolding current_row
current_row-In now [] b h = absurd (ground (arith, h))
current_row-In now (r ∷ rows) b h = elim (Bool-cases (leb r.effective_at now)) [
  | inr pending ↦
      let (m, early) = current_row-In now rows b (rw (current_row, pending) at h) in (inr m, early)
  | inl begun ↦ elim (Option-cases (current_row now rows)) [
    | inl none' ↦ ground (arith, rw (current_row, begun, none') at h, begun)
    | inr (a, found) ↦
        let (m, early) = current_row-In now rows a found in
        elim (Bool-cases (is_newer r a)) [
          | inl newer ↦ ground (arith, rw (current_row, begun, found, newer) at h, begun)
          | inr older ↦
              let same : a ≡ b = ground (arith, rw (current_row, begun, found, older) at h) in
              subst (λ z. In z (r ∷ rows) × (z.effective_at ≤ now)) same (inr m, early)
        ]
  ]
]

-- A revision that begins now, with the highest identifier, is the current one.
current_row-newest :
    (now : ℕ) (new : Saved) (rows : List Saved)
    → new.effective_at ≡ now
    → ((r : Saved) → In r rows → r.revision.id < new.revision.id)
    → current_row now (new ∷ rows) ≡ some new
unfolding current_row is_newer
current_row-newest now new rows begins newest =
    let started : leb new.effective_at now ≡ true = ground (arith, begins) in
    elim (Option-cases (current_row now rows)) [
      | inl none' ↦ rw (current_row, started, none') refl
      | inr (b, found) ↦
          let (m, early) = current_row-In now rows b found in
          let newer : is_newer new b ≡ true = ground (arith, begins, early, newest b m) in
          rw (current_row, started, found, newer) refl
    ]

module _ (o : Readings) (p : Grants) (t : Revisions) where
  -- Every recipient may use the pool.
  validate_recipients-ok :
      (ms : List Share) (m : Share)
      → validate_recipients p ms ≡ ok tt
      → In m ms
      → p.can_use m.user_id ≡ ok true
  unfolding validate_recipients
  validate_recipients-ok [] m h among = absurd among
  validate_recipients-ok (x ∷ ms) m h among =
      let (allowed, asked, h1) = bind_ok (p.can_use x.user_id) _ tt h in
      let (may, h2) = unless_ok (not allowed) (plain allocation_input) _ tt h1 in
      elim among [
        | inl here ↦
            subst (λ z. p.can_use z.user_id ≡ ok true) (sym here)
              (asked ∙ ap ok (ground (arith, may)))
        | inr there ↦ validate_recipients-ok ms m h2 there
      ]

  -- The rows that a change leaves, where it changes something.
  pub record IsWritten (c : Saved) (proposed : Config) (u : Revisions) : Type 0 where
    pub is_current :
        current_row (o.now 1) u.rows
        ≡ some (record {
          effective_at = o.now 1;
          revision = record { id = t.last_id + 1; config = proposed; anchor = c.revision.anchor };
        })
    pub past_kept : (time : ℕ) → time < o.now 1 → current_row time u.rows ≡ current_row time t.rows
    pub funded :
        (c.revision.config.mode == "ratio") ≡ true
        → (w : Window)
        → In w (effective_windows c.revision (o.now 1) (p.calendar c.revision.config (o.now 1)))
        → IsFunded p.ledger c.revision.config proposed
            (effective_windows c.revision (o.now 1) (p.calendar c.revision.config (o.now 1)))
            w

  write_members-rows :
      (s : Scheme) (c : Saved) (proposed : Config) (next : Option Config)
      → IsNumbered t
      → ((n : Saved) → s.next ≡ some n → o.now 1 < n.effective_at)
      → (current_row (o.now 1) (write_members o s c proposed next (o.now 1) t).rows
          ≡ some (record {
            effective_at = o.now 1;
            revision = record { id = t.last_id + 1; config = proposed; anchor = c.revision.anchor };
          }))
        × ((time : ℕ)
            → time < o.now 1
            → current_row time (write_members o s c proposed next (o.now 1) t).rows
              ≡ current_row time t.rows)
  unfolding write_members append_revision
  write_members-rows s c proposed next numbered later =
      let new : Saved = record {
        effective_at = o.now 1;
        revision = record { id = t.last_id + 1; config = proposed; anchor = c.revision.anchor };
      } in
      let first =
        current_row-newest (o.now 1) new t.rows refl (λ r m. omega (arith, numbered r m)) in
      let past : (time : ℕ)
          → time < o.now 1
          → current_row time (new ∷ t.rows) ≡ current_row time t.rows =
        λ time early. current_row-pending time new t.rows early in
      elim (Option-cases s.next) [
        | inl none' ↦ rw (none', write_members) (first, past)
        | inr (n, known) ↦ elim (Option-cases next) [
          | inl kept ↦ rw (known, kept, write_members) (first, past)
          | inr (d, given) ↦
              let after : Saved = record {
                effective_at = n.effective_at;
                revision = record {
                  id = t.last_id + 1 + 1;
                  config = d;
                  anchor = n.revision.anchor;
                };
              } in
              rw (known, given, write_members)
                (
                  current_row-pending (o.now 1) after (new ∷ t.rows) (later n known) ∙ first,
                  λ time early.
                      current_row-pending time after (new ∷ t.rows)
                        (omega (arith, later n known, early))
                      ∙ past time early,
                )
        ]
      ]

  -- What a change of members that goes through has found, and what it leaves.
  pub record IsApplied (s : Scheme) (members : List DraftShare) (u : Revisions) : Type 0 where
    pub current : Saved
    pub known : s.current ≡ some current
    pub proposed : Config
    pub normal :
        normalize (draft_with current.revision.config (canonical_drafts members)) ≡ ok proposed
    pub may_use : (m : Share) → In m proposed.members → p.can_use m.user_id ≡ ok true
    pub written :
        ((same_members current.revision.config.members proposed.members ≡ true) × (t ≡ u))
        ⊎ IsWritten current proposed u

  apply_members-IsApplied :
      (s : Scheme) (members : List DraftShare) (u : Revisions)
      → IsNumbered t
      → ((n : Saved) → s.next ≡ some n → o.now 1 < n.effective_at)
      → apply_members o p s members (o.now 1) t ≡ ok u
      → IsApplied s members u
  unfolding apply_members
  apply_members-IsApplied s members u numbered later h = elim (Option-cases s.current) [
    | inl none' ↦ absurd (ground (arith, rw none' at h))
    | inr (c, known) ↦
        let now = o.now 1 in
        let (proposed, normal, h1) =
          bind_ok (normalize (draft_with c.revision.config (canonical_drafts members))) _ u
            (rw known at h) in
        let (valid, h2) = seq_ok (validate_recipients p proposed.members) _ u h1 in
        record {
          current = c;
          known = known;
          proposed = proposed;
          normal = normal;
          may_use = λ m. validate_recipients-ok proposed.members m valid;
          written = elim (Bool-cases (same_members c.revision.config.members proposed.members)) [
            | inl same ↦ inl (same, ok_injective (rw same at h2))
            | inr other ↦
                let (next, planned, h3) =
                  bind_ok (next_config s c.revision.config proposed) _ u (rw other at h2) in
                let (funds, h4) =
                  seq_ok
                    (check_funding p.ledger c.revision proposed now
                      (p.calendar c.revision.config now))
                    _ u h3 in
                let (a, h5) = seq_ok o.inserted _ u h4 in
                let (b, h6) = seq_ok o.audited _ u h5 in
                let rows = ok_injective h6 in
                let (first, past) = write_members-rows s c proposed next numbered later in
                inr (record {
                  is_current = ap (λ (v : Revisions). current_row now v.rows) (sym rows) ∙ first;
                  past_kept = λ time early.
                      ap (λ (v : Revisions). current_row time v.rows) (sym rows) ∙ past time early;
                  funded = λ ratio w among.
                      check_funding_covers p.ledger c.revision proposed now
                        (p.calendar c.revision.config now) w ratio funds among;
                })
          ];
        }
  ]

  -- If a change of members succeeds, where no identifier is above the last and the clock does not go
  -- back: the request named the current revision, whose rules with the new members are valid, and
  -- every member may use the pool; and either the members are the same and nothing is written, or
  -- the new rules are the current ones from now on with the anchor of the old, what was current
  -- before is so still, and a shared budget is funded in every window in force or gives nobody more.
  pub update_members-IsApplied :
      (x : Conditions) (members : List DraftShare) (u : Revisions) (out : Scheme)
      → IsNumbered t
      → o.now 1 ≤ o.now 5
      → update_members o p x members t ≡ ok (u, out)
      → IsApplied (read_scheme (o.now 0) t) members u
        × ((c : Saved)
            → current_row (o.now 0) t.rows ≡ some c
            → x.expected_current ≡ whole c.revision.id)
  unfolding update_members read_scheme
  update_members-IsApplied x members u out numbered forward h =
      let s = read_scheme (o.now 0) t in
      let (a, h1) = seq_ok o.opened _ (u, out) h in
      let (versions, h2) = seq_ok (check_versions x s) _ (u, out) h1 in
      let (v, applied, h3) = bind_ok (apply_members o p s members (o.now 1) t) _ (u, out) h2 in
      let (same, back, in_time) = finish_change-ok o s x "" v u out h3 in
      (
        apply_members-IsApplied s members u numbered
            (λ n known. omega (arith, forward, has_begun-late s n (o.now 5) known in_time))
            (applied ∙ ap ok same),
        (check_versions-ok x s versions).0,
      )
