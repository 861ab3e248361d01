-- ===== src/Allowance/Membership.antt =====
-- A change of the members of a scheme at once: `applyMembers` and `UpdateMembers` of
-- internal/allocations/changes.go, `sameSchedule` of calendar.go.
pub mod Applied
use Prim.Native.Char.{Char}
use sub_lane.Base.{
  ℕ, ◌+◌, ◌-◌, ◌*◌, max, code, String, Bool, true, false, not, ◌&&◌, ◌||◌, Option, none, some, List,
  [], ◌∷◌, map, any, all, length, ltb, leb, nat_beq, if◌then◌else◌, ℤ, pos, negsuc, Eq, ◌==◌,
  string_eq, nat_eq,
}
use sub_lane.Failure.{
  Failure, Result, err, ok, plain, ◌>>◌, ◌>>=◌, unless, allocation_input, version_conflict,
  initial_schedule, member_conflict,
}
use sub_lane.Allowance.{Condition, Share, Rate, Config, Revision, entry_mode}
use sub_lane.Allowance.Normalize.{
  DraftWindow, DraftShare, DraftRate, Draft, valid_period, normalize,
}
use sub_lane.Allowance.Check.{Ledger}
use sub_lane.Allowance.Funding.{check_funding}
use sub_lane.Allowance.Revisions.{Saved, Revisions, append_revision}
use sub_lane.Allowance.Changes.{
  Conditions, Scheme, Readings, read_scheme, check_versions, finish_change,
}

abbrev less : ℤ → ℤ → Bool
less (pos n) (pos m) = ltb n m
less (pos n) (negsuc m) = false
less (negsuc n) (pos m) = true
less (negsuc n) (negsuc m) = ltb m n

-- slices.SortFunc, on keys that differ: the others are refused later.
unfoldable pub put_by {ℓ} : {A : Type ℓ} → (A → A → Bool) → A → List A → List A
put_by before a [] = a ∷ []
put_by before a (x ∷ xs) =
    let later = put_by before a xs in if before x a then x ∷ later else a ∷ x ∷ xs

unfoldable pub sort_by {ℓ} : {A : Type ℓ} → (A → A → Bool) → List A → List A
unfolding put_by
sort_by before [] = []
sort_by before (x ∷ xs) = put_by before x (sort_by before xs)

abbrev ordered_draft : DraftShare → DraftShare
ordered_draft m = record m { overrides = sort_by (λ a b. less a.seconds b.seconds) m.overrides }

abbrev ordered : Share → Share
ordered m = record m { overrides = sort_by (λ a b. ltb a.seconds b.seconds) m.overrides }

-- canonicalMembers, of a request's members and of saved ones.
unfoldable pub canonical_drafts : List DraftShare → List DraftShare
unfolding sort_by
canonical_drafts ms = sort_by (λ a b. less a.user_id b.user_id) (map ordered_draft ms)

unfoldable pub canonical : List Share → List Share
unfolding sort_by
canonical ms = sort_by (λ a b. ltb a.user_id b.user_id) (map ordered ms)

-- reflect.DeepEqual
abbrev same_list {ℓ} : {A : Type ℓ} → (A → A → Bool) → List A → List A → Bool
same_list same [] [] = true
same_list same [] (y ∷ ys) = false
same_list same (x ∷ xs) [] = false
same_list same (x ∷ xs) (y ∷ ys) = same x y && same_list same xs ys

abbrev same_condition : Condition → Condition → Bool
same_condition a b = a.seconds == b.seconds && a.limit == b.limit

abbrev same_share : Share → Share → Bool
same_share a b =
    a.user_id == b.user_id && a.limit == b.limit && same_list same_condition a.overrides b.overrides

unfoldable pub same_members : List Share → List Share → Bool
unfolding canonical
same_members a b = same_list same_share (canonical a) (canonical b)

-- A saved configuration as `normalize` and `validPeriod` take it.
abbrev draft_window : Condition → DraftWindow
draft_window c = record { seconds = pos c.seconds; limit = pos c.limit }

abbrev pub draft_share : Share → DraftShare
draft_share m = record {
  user_id = pos m.user_id;
  limit = pos m.limit;
  overrides = map draft_window m.overrides;
}

abbrev pub draft_with : Config → List DraftShare → Draft
draft_with c members = record {
  mode = c.mode;
  period = c.period;
  reset_time = c.reset_time;
  reset_day = pos c.reset_day;
  members = members;
  rates =
      map
        (λ (r : Rate). record {
          model = r.model;
          input = pos r.input;
          cached = pos r.cached;
          output = pos r.output;
        })
        c.rates;
  ratio_unit = c.ratio_unit;
  windows = map draft_window c.windows;
  total = pos c.total;
}

-- resetMinutes, of a time that validResetSchedule has passed.
abbrev digit : Char → ℕ
digit c = code c - b'0'

unfoldable pub reset_minutes : String → ℕ
reset_minutes (String.◌∷◌ a (String.◌∷◌ b (String.◌∷◌ c (String.◌∷◌ d (String.◌∷◌ e String.[]))))) =
    (digit a * 10 + digit b) * 60 + (digit d * 10 + digit e)
reset_minutes text = 0

-- sameSchedule
unfoldable pub same_schedule : Config → Config → Bool
unfolding valid_period entry_mode reset_minutes any all
same_schedule a b =
    if not (valid_period (draft_with a [])) || not (valid_period (draft_with b []))
    then false
    else if not (a.mode == b.mode)
        || not (entry_mode a == entry_mode b)
        || not (a.period == b.period)
        || not (reset_minutes a.reset_time == reset_minutes b.reset_time)
        || not (max 1 a.reset_day == max 1 b.reset_day)
        || not (length a.windows == length b.windows)
    then false
    else all (λ x. any (λ y. x.seconds == y.seconds) b.windows) a.windows

-- What a change of members asks beside the clock: the members of the pool, and the ledger.
pub record Grants : Type 0 where
  pub can_use : ℕ → Result Bool
  pub ledger : Ledger
  pub calendar : Config → ℕ → ℕ × ℕ

-- validateRecipients
unfoldable pub validate_recipients : Grants → List Share → Result (Unit {0})
validate_recipients p [] = ok tt
validate_recipients p (m ∷ ms) = p.can_use m.user_id >>= λ allowed.
    unless (not allowed) (plain allocation_input) >> validate_recipients p ms

-- The configuration of the revision to come with the new members, if there is one.
unfoldable pub next_config : Scheme → Config → Config → Result (Option Config)
unfolding same_members same_schedule normalize
next_config s current proposed = elim s.next [
  | none ↦ ok none
  | some n ↦
      unless (not (same_members current.members n.revision.config.members)) (plain member_conflict)
      >> (unless
            ((not (current.mode == "ratio") || not (n.revision.config.mode == "ratio"))
              && not (same_schedule current n.revision.config))
            (plain member_conflict)
          >> elim (normalize (draft_with n.revision.config (map draft_share proposed.members))) [
            | err e ↦ err (plain member_conflict)
            | ok d ↦ ok (some d)
          ])
]

-- The revisions that are written: one for now, and one in place of the one to come.
unfoldable pub write_members :
    Readings → Scheme → Saved → Config → Option Config → ℕ → Revisions → Revisions
unfolding append_revision
write_members o s c proposed next now t =
    let u = append_revision now c.revision.anchor proposed t in
    elim s.next [
      | none ↦ u
      | some n ↦ elim next [
        | none ↦ u
        | some d ↦ append_revision n.effective_at n.revision.anchor d u
      ]
    ]

-- applyMembers
unfoldable pub apply_members :
    Readings → Grants → Scheme → List DraftShare → ℕ → Revisions → Result Revisions
unfolding canonical_drafts normalize validate_recipients same_members next_config check_funding
    write_members
apply_members o p s members now t = elim s.current [
  | none ↦ err (plain initial_schedule)
  | some c ↦ normalize (draft_with c.revision.config (canonical_drafts members)) >>= λ proposed.
      validate_recipients p proposed.members
      >> (if same_members c.revision.config.members proposed.members
          then ok t
          else (next_config s c.revision.config proposed >>= λ next.
              check_funding p.ledger c.revision proposed now (p.calendar c.revision.config now)
              >> (o.inserted >> (o.audited >> ok (write_members o s c proposed next now t)))))
]

-- UpdateMembers
unfoldable pub update_members :
    Readings → Grants → Conditions → List DraftShare → Revisions → Result (Revisions × Scheme)
unfolding read_scheme check_versions apply_members finish_change
update_members o p x members t =
    let s = read_scheme (o.now 0) t in
    o.opened
    >> (check_versions x s
        >> (apply_members o p s members (o.now 1) t >>= λ u. finish_change o s x "" u))
