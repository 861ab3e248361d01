-- ===== src/Gateway/Service.antt =====
-- The leases of internal/gateway: members, accounts and models. `admitMember` of members.go,
-- `readModelRuntime` and `modelLease` of model_runtime.go, the end of `leaseAccount` in queue.go,
-- and `finish` of history.go. Model states are shared by pointer: the map holds pointers into
-- `cells`, and a request keeps its own pointer when the map moves on.
use text.Mathlib.TextEquality.{eq_iff}
use sub_lane.Base.{
  lookup, insert, Map, ℕ, ◌+◌, ◌-◌, ◌%◌, String, ◌≡◌, ◌↔◌, Bool, true, not, ◌&&◌, Option, none,
  some, arith, ltb, leb, if◌then◌else◌, Eq, ◌==◌, string_eq, nat_eq,
}
use sub_lane.Failure.{Result, group_unavailable, member_busy, plain, member_rate_limited, ok, err}
use sub_lane.Gateway.State.{Tuning, Runtime, ModelRuntime}

-- modelKey
pub record ModelKey : Type 0 where
  pub account : String
  pub model : String

pub key_beq : ModelKey → ModelKey → Bool
key_beq a b = a.account == b.account && a.model == b.model

pub key_beq_iff : (a b : ModelKey) → (key_beq a b ≡ true) ↔ (a ≡ b)
unfolding key_beq
key_beq_iff a b = ground (arith, eq_iff a.account b.account, eq_iff a.model b.model)

instance abbrev pub model_key_eq : Eq ModelKey
model_key_eq = record { beq = key_beq; beq_iff = key_beq_iff }

pub record Cell : Type 0 where
  pub key : ModelKey
  pub state : ModelRuntime

-- The part of `Service` under the admission lock. `rates` is the table `member_rate`: the window
-- and the requests counted in it, for each member.
pub record Service : Type 0 where
  pub tuning : Tuning
  pub health : Map String Runtime
  pub models : Map ModelKey ℕ
  pub cells : ℕ → Cell
  pub next_cell : ℕ
  pub member_active : Map ℕ ℕ
  pub rates : Map ℕ (ℕ × ℕ)
  pub sequence : ℕ

abbrev pub write_cell : ℕ → Cell → (ℕ → Cell) → ℕ → Cell
write_cell p c cells q = if q == p then c else cells q

abbrev pub active : Map ℕ ℕ → ℕ → ℕ
active m user = elim (lookup user m) [ none ↦ 0 | some n ↦ n ]

-- GetMemberLimits: no row, or the limits of a member.
pub record Limits : Type 0 where
  pub enabled : Bool
  pub requests_per_minute : ℕ
  pub max_concurrency : ℕ

-- The SQL of TakeMemberRate: `none` if the window is full, else the new table.
unfoldable pub take_member_rate : Map ℕ (ℕ × ℕ) → ℕ → ℕ → ℕ → Option (Map ℕ (ℕ × ℕ))
take_member_rate rates user start limit = elim (lookup user rates) [
  | none ↦ some (insert user (start, 1) rates)
  | some (window, requests) ↦
      if window == start && leb limit requests
      then none
      else some (insert user (start, if window == start then requests + 1 else 1) rates)
]

unfoldable pub admit_member : Service → Option Limits → ℕ → ℕ → Result Service
admit_member s none user now = err (plain group_unavailable)
admit_member s (some l) user now =
    let start = now - now % 60 in
    let joined = insert user (active s.member_active user + 1) s.member_active in
    if not l.enabled
    then err (plain group_unavailable)
    else if ltb 0 l.max_concurrency && leb l.max_concurrency (active s.member_active user)
    then err (plain member_busy)
    else if ltb 0 l.requests_per_minute
    then elim (take_member_rate s.rates user start l.requests_per_minute) [
      | none ↦ err (member_rate_limited (start + 60 - now))
      | some rates ↦ ok (record s { rates = rates; member_active = joined })
    ]
    else ok (record s { member_active = joined })
