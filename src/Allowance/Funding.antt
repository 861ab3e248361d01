-- ===== src/Allowance/Funding.antt =====
-- Whether a shared budget covers a change of its members at once: `checkFunding` of
-- internal/allocations/changes.go, on the accounting of accounting.go.
use sub_lane.Base.{
  ℕ, ◌+◌, ◌-◌, Bool, not, ◌&&◌, List, [], ◌∷◌, ltb, any, if◌then◌else◌, ◌==◌, string_eq, nat_eq,
}
use sub_lane.Failure.{Result, ok, plain, ◌>>◌, ◌>>=◌, unless, funding_gap}
use sub_lane.Allowance.{
  Share, Config, Window, Revision, member_limit, window_total, effective_windows,
}
use sub_lane.Allowance.Check.{Ledger, member_usage, reservations}

-- used and held of accounting.group
unfoldable pub group_taken : Ledger → Config → List Window → Window → Result ℕ
unfolding reservations
group_taken led c ws w = led.group_used w >>= λ used.
    reservations led c ws 0 (record { user_id = 0; limit = 0; overrides = [] }) w >>= λ counted.
    ok (used + counted.1)

-- The loop over the proposed members: what each may still take, and none less than nothing.
unfoldable pub members_need : Ledger → Config → List Window → Window → List Share → Result ℕ
unfolding member_usage
members_need led c ws w [] = ok 0
members_need led c ws w (m ∷ ms) = member_usage led c ws m w >>= λ u.
    members_need led c ws w ms >>= λ rest. ok ((u.limit - u.used - u.held) + rest)

-- The limit that a user has had, or 0.
unfoldable pub old_limit : Config → Window → ℕ → ℕ → List Share → ℕ
unfolding member_limit
old_limit c w user found [] = found
old_limit c w user found (m ∷ ms) =
    old_limit c w user (if m.user_id == user then member_limit c m w else found) ms

-- Whether a proposed member gets more than before.
unfoldable pub is_raised : Config → Config → Window → Share → Bool
unfolding member_limit old_limit
is_raised current proposed w m =
    ltb (old_limit current w m.user_id 0 current.members) (member_limit proposed m w)

unfoldable pub fund_window : Ledger → Config → Config → List Window → Window → Result (Unit {0})
unfolding group_taken members_need window_total is_raised any
fund_window led current proposed ws w = group_taken led current ws w >>= λ taken.
    members_need led proposed ws w proposed.members >>= λ need.
    unless
      (ltb (window_total current w) (taken + need)
        && any (is_raised current proposed w) proposed.members)
      (plain funding_gap)

unfoldable pub fund_windows :
    Ledger → Config → Config → List Window → List Window → Result (Unit {0})
unfolding fund_window
fund_windows led current proposed ws [] = ok tt
fund_windows led current proposed ws (w ∷ rest) =
    fund_window led current proposed ws w >> fund_windows led current proposed ws rest

-- checkFunding; `calendar` is what `Window` finds in the workspace's time zone.
unfoldable pub check_funding : Ledger → Revision → Config → ℕ → ℕ × ℕ → Result (Unit {0})
unfolding fund_windows effective_windows
check_funding led current proposed now calendar =
    if not (current.config.mode == "ratio")
    then ok tt
    else let ws = effective_windows current now calendar in
      fund_windows led current.config proposed ws ws
