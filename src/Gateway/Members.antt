-- ===== src/Gateway/Members.antt =====
-- The limits of a member hold: what `admit_member` lets through.
use sub_lane.Base.{
  lookup, Map, lookup-insert_self, ℕ, ◌+◌, ◌-◌, ◌%◌, ◌≤◌, ◌<◌, ◌≡◌, ◌⊎◌, inl, inr, true, none, some,
  arith, if◌then◌else◌, Option-cases, ◌==◌, string_eq, nat_eq,
}
use sub_lane.Failure.{ok}
use sub_lane.Gateway.Service.{Service, active, Limits, take_member_rate, admit_member}

-- Requests counted in the minute that starts at `start`.
abbrev pub taken : Map ℕ (ℕ × ℕ) → ℕ → ℕ → ℕ
taken rates user start = elim (lookup user rates) [
  | none ↦ 0
  | some (window, requests) ↦ if window == start then requests else 0
]

take_member_rate_lem :
    (rates after : Map ℕ (ℕ × ℕ)) (user start limit : ℕ)
    → take_member_rate rates user start limit ≡ some after
    → 0 < limit
    → (taken after user start ≡ taken rates user start + 1) × (taken after user start ≤ limit)
unfolding take_member_rate
take_member_rate_lem rates after user start limit h p = elim (Option-cases (lookup user rates)) [
  | inl e ↦ ground (arith, lookup-insert_self user (start, 1) rates)
  | inr (w, e) ↦
      ground (arith, lookup-insert_self user (start, if w.0 == start then w.1 + 1 else 1) rates)
]

-- An admitted member is enabled, is within the number of requests at once, and takes exactly one
-- of the requests of the current minute.
pub record IsAdmitted (s t : Service) (l : Limits) (user now : ℕ) : Type 0 where
  pub is_enabled : l.enabled ≡ true
  pub one_more : active t.member_active user ≡ active s.member_active user + 1
  pub within : (l.max_concurrency ≡ 0) ⊎ (active t.member_active user ≤ l.max_concurrency)
  pub in_minute :
      (l.requests_per_minute ≡ 0)
      ⊎ ((taken t.rates user (now - now % 60) ≡ taken s.rates user (now - now % 60) + 1)
          × (taken t.rates user (now - now % 60) ≤ l.requests_per_minute))
  pub health_kept : t.health ≡ s.health

-- A member that is admitted is enabled, has one open request more than before and no more than its
-- limit of requests at once, if it has one, has taken exactly one request of the present minute
-- within its rate, if it has one, and leaves the accounts' states as they are.
pub admit_member-IsAdmitted :
    (s t : Service) (l : Limits) (user now : ℕ)
    → admit_member s (some l) user now ≡ ok t
    → IsAdmitted s t l user now
unfolding admit_member
admit_member-IsAdmitted s t l user now h =
    let start = now - now % 60 in
    let joined = lookup-insert_self user (active s.member_active user + 1) s.member_active in
    elim (Option-cases (take_member_rate s.rates user start l.requests_per_minute)) [
      | inl full ↦ ground (arith, joined)
      | inr (rates, e) ↦
          ground
            (arith, joined, take_member_rate_lem s.rates rates user start l.requests_per_minute e)
    ]
