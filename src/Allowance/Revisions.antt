-- ===== src/Allowance/Revisions.antt =====
-- The revisions of a scheme, and the SQL of internal/storage/queries/allocations.sql over them.
use sub_lane.Base.{
  ℕ, ◌+◌, ◌≤◌, ◌<◌, ◌≡◌, ◌⊎◌, refl, sym, subst, ◌∙◌, inl, inr, Bool, true, false, not, ◌&&◌, ◌||◌,
  Option, none, some, List, [], ◌∷◌, keep, In, arith, ltb, leb, if◌then◌else◌, Bool-cases,
  Option-cases, ◌==◌, nat_eq,
}
use sub_lane.Allowance.{Config, Revision}

-- A row of allocation_revisions.
pub record Saved : Type 0 where
  pub effective_at : ℕ
  pub revision : Revision

-- The rows of one scheme, and the last identifier that AUTOINCREMENT has given out.
pub record Revisions : Type 0 where
  pub rows : List Saved
  pub last_id : ℕ

-- ORDER BY effective_at DESC, id DESC
unfoldable pub is_newer : Saved → Saved → Bool
is_newer a b =
    ltb b.effective_at a.effective_at
    || (b.effective_at == a.effective_at && ltb b.revision.id a.revision.id)

-- ORDER BY effective_at, id DESC
unfoldable pub is_sooner : Saved → Saved → Bool
is_sooner a b =
    ltb a.effective_at b.effective_at
    || (b.effective_at == a.effective_at && ltb b.revision.id a.revision.id)

-- CurrentAllocationRevision
unfoldable pub current_row : ℕ → List Saved → Option Saved
unfolding is_newer
current_row now [] = none
current_row now (r ∷ rows) =
    let best = current_row now rows in
    if leb r.effective_at now
    then elim best [ none ↦ some r | some b ↦ if is_newer r b then some r else some b ]
    else best

-- NextAllocationRevision
unfoldable pub next_row : ℕ → List Saved → Option Saved
unfolding is_sooner
next_row now [] = none
next_row now (r ∷ rows) =
    let best = next_row now rows in
    if ltb now r.effective_at
    then elim best [ none ↦ some r | some b ↦ if is_sooner r b then some r else some b ]
    else best

-- appendRevision, of a configuration whose JSON is written and read back as it is.
unfoldable pub append_revision : ℕ → ℕ → Config → Revisions → Revisions
append_revision at anchor config t = record {
  rows =
      record {
        effective_at = at;
        revision = record { id = t.last_id + 1; config = config; anchor = anchor };
      }
      ∷ t.rows;
  last_id = t.last_id + 1;
}

-- DeleteAllocationPendingAt; a revision that entries have captured stays.
unfoldable pub delete_pending_at : ℕ → ℕ → (ℕ → Bool) → List Saved → List Saved
unfolding keep
delete_pending_at at now captured rows =
    keep (λ r. not (r.effective_at == at && ltb now r.effective_at && not (captured r.revision.id)))
      rows

-- What is pending is not current, whatever is added to it or taken off.
pub current_row-pending :
    (now : ℕ) (r : Saved) (rows : List Saved)
    → now < r.effective_at
    → current_row now (r ∷ rows) ≡ current_row now rows
unfolding current_row
current_row-pending now r rows pending = ground (arith, pending)

pub current_row-delete :
    (time at now : ℕ) (captured : ℕ → Bool) (rows : List Saved)
    → time ≤ now
    → current_row time (delete_pending_at at now captured rows) ≡ current_row time rows
unfolding delete_pending_at keep current_row
current_row-delete time at now captured [] early = refl
current_row-delete time at now captured (r ∷ rows) early =
    let rest = current_row-delete time at now captured rows early in
    elim (Bool-cases
      (r.effective_at == at && ltb now r.effective_at && not (captured r.revision.id))) [
        | inl deleted ↦
            rw (delete_pending_at, keep, deleted)
              (rest ∙ sym (current_row-pending time r rows (ground (arith, deleted, early))))
        | inr kept ↦ rw (delete_pending_at, keep, kept, current_row, rest) refl
      ]

next_row-step :
    (now : ℕ) (r : Saved) (rows : List Saved)
    → ((leb r.effective_at now ≡ true) × (next_row now (r ∷ rows) ≡ next_row now rows))
      ⊎ ((ltb now r.effective_at ≡ true)
          × (next_row now rows ≡ none)
          × (next_row now (r ∷ rows) ≡ some r))
      ⊎ ((b : Saved) × (ltb now r.effective_at ≡ true)
          × (next_row now rows ≡ some b)
          × (next_row now (r ∷ rows) ≡ (if is_sooner r b then some r else some b)))
unfolding next_row
next_row-step now r rows = elim (Bool-cases (ltb now r.effective_at)) [
  | inr past ↦ inl (ground (arith, past), rw (next_row, past) refl)
  | inl pending ↦ elim (Option-cases (next_row now rows)) [
    | inl none' ↦ inr (inl (pending, none', rw (next_row, pending, none') refl))
    | inr (b, found) ↦ inr (inr (b, pending, found, rw (next_row, pending, found) refl))
  ]
]

is_sooner-le :
    (r b : Saved)
    → ((is_sooner r b ≡ true) × (r.effective_at ≤ b.effective_at))
      ⊎ ((is_sooner r b ≡ false) × (b.effective_at ≤ r.effective_at))
unfolding is_sooner
is_sooner-le r b = ground arith

some_injective : {x y : Saved} → some x ≡ some y → x ≡ y
some_injective h = ground (arith, h)

-- The next revision is one of the rows, it is pending, and none that is pending comes before it.
abbrev pub IsFirst : ℕ → List Saved → Saved → Type 0
IsFirst now rows n =
    In n rows
    × (now < n.effective_at)
    × ((r : Saved) → In r rows → now < r.effective_at → n.effective_at ≤ r.effective_at)

pub next_row-none :
    (now : ℕ) (rows : List Saved) (r : Saved)
    → next_row now rows ≡ none
    → In r rows
    → r.effective_at ≤ now
next_row-none now [] r h m = absurd m
next_row-none now (x ∷ rows) r h m = elim (next_row-step now x rows) [
  | inl (past, same) ↦ elim m [
    | inl here ↦ subst (λ z. z.effective_at ≤ now) (sym here) (ground (arith, past))
    | inr there ↦ next_row-none now rows r (sym same ∙ h) there
  ]
  | inr (inl (pending, nothing, first)) ↦ absurd (ground (arith, h, first))
  | inr (inr (b, pending, found, first)) ↦ absurd (ground (arith, h, first))
]

head-IsFirst :
    (now : ℕ) (x : Saved) (rows : List Saved)
    → now < x.effective_at
    → ((r : Saved) → In r rows → now < r.effective_at → x.effective_at ≤ r.effective_at)
    → IsFirst now (x ∷ rows) x
head-IsFirst now x rows pending first = (
  inl refl,
  pending,
  λ r m later. elim m [
    | inl here ↦ subst (λ z. x.effective_at ≤ z.effective_at) (sym here) (omega arith)
    | inr there ↦ first r there later
  ],
)

later-IsFirst :
    (now : ℕ) (x b : Saved) (rows : List Saved)
    → IsFirst now rows b
    → (now < x.effective_at → b.effective_at ≤ x.effective_at)
    → IsFirst now (x ∷ rows) b
later-IsFirst now x b rows (among, pending, first) before = (
  inr among,
  pending,
  λ r m later. elim m [
    | inl here ↦
        subst (λ z. b.effective_at ≤ z.effective_at) (sym here)
          (before (subst (λ z. now < z.effective_at) here later))
    | inr there ↦ first r there later
  ],
)

pub next_row-IsFirst :
    (now : ℕ) (rows : List Saved) (n : Saved) → next_row now rows ≡ some n → IsFirst now rows n
unfolding next_row
next_row-IsFirst now [] n h = absurd (ground (arith, h))
next_row-IsFirst now (x ∷ rows) n h = elim (next_row-step now x rows) [
  | inl (past, same) ↦
      later-IsFirst now x n rows (next_row-IsFirst now rows n (sym same ∙ h))
        (λ pending. absurd (ground (arith, past, pending)))
  | inr (inl (pending, nothing, first)) ↦
      subst (IsFirst now (x ∷ rows)) (some_injective (sym first ∙ h)) (
        head-IsFirst now x rows (ground (arith, pending))
          (λ r m later. absurd (omega (arith, later, next_row-none now rows r nothing m))))
  | inr (inr (b, pending, found, first)) ↦
      let ih = next_row-IsFirst now rows b found in
      elim (is_sooner-le x b) [
        | inl (sooner, before) ↦
            subst (IsFirst now (x ∷ rows)) (some_injective (sym (rw sooner at first) ∙ h)) (
              head-IsFirst now x rows (ground (arith, pending))
                (λ r m later. omega (arith, before, ih.2 r m later)))
        | inr (later, before) ↦
            subst (IsFirst now (x ∷ rows)) (some_injective (sym (rw later at first) ∙ h))
              (later-IsFirst now x b rows ih (λ pending'. before))
      ]
]
