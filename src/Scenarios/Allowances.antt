-- ===== src/Scenarios/Allowances.antt =====
-- A shared budget of 1000 tokens in a window of an hour, for two members with half of it each.
use sub_lane.Base.{
  In, pos, some, List, false, string_eq, nat_eq, int_eq, ℕ, ◌≤◌, ◌<◌, ◌≡◌, refl, inr, ◌∙◌, ◌↔◌, sym,
  ap, inl, true, [], ◌∷◌, arith,
}
use sub_lane.Failure.{ok}
use sub_lane.Allowance.{Share, Config, Window, Revision, duration_window, effective_windows}
use sub_lane.Allowance.Check.{Ledger}
use sub_lane.Allowance.Funding.{check_funding}
use sub_lane.Allowance.Funded.{HasApart, IsFunded, check_funding-IsFunded}
use sub_lane.Allowance.Normalize.{DraftShare}
use sub_lane.Allowance.Revisions.{Saved, Revisions, current_row}
use sub_lane.Allowance.Changes.{Readings, Conditions, whole, null_value, missing, read_scheme}
use sub_lane.Allowance.Changes.Done.{IsNumbered}
use sub_lane.Allowance.Membership.{Grants, update_members}
use sub_lane.Allowance.Membership.Applied.{IsApplied, update_members-IsApplied}

starts : (duration_window 10000 1000 3600).start ≤ 10500
unfolding duration_window
starts = omega arith

ends : 10500 < (duration_window 10000 1000 3600).stop
unfolding duration_window
ends = omega arith

abbrev half : ℕ → Share
half user = record { user_id = user; limit = 5000; overrides = [] }

abbrev hourly : Revision
hourly = record {
  id = 3;
  config = record {
    mode = "ratio";
    period = "durations";
    reset_time = "";
    reset_day = 0;
    members = half 7 ∷ half 8 ∷ [];
    rates = [];
    ratio_unit = "tokens";
    windows = record { seconds = 3600; limit = 1000 } ∷ [];
    total = 0;
  };
  anchor = 1000;
}

abbrev no_calendar : Config → ℕ × ℕ
no_calendar c = (0, 0)

abbrev hour : Window
hour = record { kind = "duration"; start = 8200; stop = 11800; seconds = 3600; limit = 1000 }

-- The member has used 100 tokens and has one request open.
abbrev ledger : Ledger
ledger = record {
  group_of_scheme = ok 1;
  may_use = ok true;
  current = ok hourly;
  entries = λ user from to. ok (record { user_id = 7; revision_id = 3; started_at = 9000 } ∷ []);
  config_of = λ id. ok hourly.config;
  member_used = λ user w. ok 100;
  group_used = λ w. ok 300;
}

-- One member leaves, and another gets a fifth.
abbrev moved : Config
moved = record hourly.config {
  members = half 7 ∷ record { user_id = 9; limit = 2000; overrides = [] } ∷ [];
}

funds : check_funding ledger hourly moved 10000 (0, 0) ≡ ok tt
unfolding check_funding
funds = refl

old_members-HasApart : HasApart hourly.config.members
old_members-HasApart a b first second same = elim first [
  | inl one ↦ elim second [
    | inl other ↦ one ∙ sym other
    | inr (inl other) ↦ absurd (ground (arith, ap Share.user_id one, ap Share.user_id other, same))
    | inr (inr nothing) ↦ elim nothing [ ]
  ]
  | inr (inl one) ↦ elim second [
    | inl other ↦ absurd (ground (arith, ap Share.user_id one, ap Share.user_id other, same))
    | inr (inl other) ↦ one ∙ sym other
    | inr (inr nothing) ↦ elim nothing [ ]
  ]
  | inr (inr nothing) ↦ elim nothing [ ]
]

check_funding-IsFunded_example : (check_funding ledger hourly moved 10000 (0, 0) ≡ ok tt) ↔ (
    (w : Window)
    → In w (effective_windows hourly 10000 (0, 0))
    → IsFunded ledger hourly.config moved (effective_windows hourly 10000 (0, 0)) w)
check_funding-IsFunded_example =
    check_funding-IsFunded ledger hourly moved 10000 (0, 0) refl old_members-HasApart

abbrev in_force : Revisions
in_force = record { rows = record { effective_at = 1000; revision = hourly } ∷ []; last_id = 3 }

abbrev readings : Readings
readings = record {
  now = λ k. 10000;
  closing = λ c now. 0;
  captured = λ id. false;
  opened = ok tt;
  inserted = ok tt;
  deleted = ok tt;
  found = ok tt;
  audited = ok tt;
  read_back = ok tt;
  committed = ok tt;
}

abbrev pool : Grants
pool = record { can_use = λ user. ok true; ledger = ledger; calendar = λ c now. (0, 0) }

abbrev request : Conditions
request = record {
  expected_current = whole 3;
  expected_next = null_value;
  expected_effective_at = missing;
}

abbrev asked : List DraftShare
asked =
    record { user_id = pos 9; limit = pos 2000; overrides = [] }
    ∷ record { user_id = pos 7; limit = pos 5000; overrides = [] }
    ∷ []

abbrev replaced : Revisions
replaced = record {
  rows =
      record { effective_at = 10000; revision = record { id = 4; config = moved; anchor = 1000 } }
      ∷ record { effective_at = 1000; revision = hourly }
      ∷ [];
  last_id = 4;
}

applies :
    update_members readings pool request asked in_force ≡ ok (replaced, read_scheme 10000 replaced)
unfolding update_members
applies = refl

issued : IsNumbered in_force
issued r m = ground (arith, m)

update_members-IsApplied_example :
    IsApplied readings pool in_force (read_scheme 10000 in_force) asked replaced
    × ((c : Saved)
        → current_row 10000 in_force.rows ≡ some c
        → request.expected_current ≡ whole c.revision.id)
update_members-IsApplied_example =
    update_members-IsApplied readings pool in_force request asked replaced
      (read_scheme 10000 replaced) issued (omega arith) applies
