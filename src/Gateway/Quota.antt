-- ===== src/Gateway/Quota.antt =====
-- Quota snapshots of an account: internal/gateway/quota.go, `snapshotState` of usage.go and the
-- types of internal/upstream/usage.go. Times are Unix seconds.
pub mod Percent
pub mod Laws
use sub_lane.Base.{
  ℕ, ◌+◌, min, String, Bool, true, false, not, ◌&&◌, ◌||◌, Option, none, some, List, [], ◌∷◌, ltb,
  leb, if◌then◌else◌, ◌==◌, string_eq, nat_eq,
}
use Percent.{Float, at_least_hundred, ceil_left, is_left}

-- The fields of `upstream.Usage` that routing reads; a nil pointer is `none`.
pub record UsageWindow : Type 0 where
  pub used_percent : Option Float
  pub reset_at : Option ℕ

pub record UsageLimit : Type 0 where
  pub name : String
  pub allowed : Option Bool
  pub limit_reached : Option Bool
  pub windows : List UsageWindow

pub record Usage : Type 0 where
  pub limits : List UsageLimit
  pub updated_at : ℕ

pub data QuotaState : Type 0 where
  unknown stale unsupported available exhausted : QuotaState

pub record Decision : Type 0 where
  pub state : QuotaState
  pub retry_at : ℕ
  pub weight : ℕ

abbrev pub decided : QuotaState → Decision
decided s = record { state = s; retry_at = 0; weight = 0 }

abbrev pub usage_ttl : ℕ
usage_ttl = 120

-- The test of `snapshotState` at one window: a reset within its life ends a snapshot sooner.
unfoldable pub lowered : ℕ → ℕ → Option ℕ → ℕ
lowered updated expires none = expires
lowered updated expires (some at) = if ltb updated at && ltb at expires then at else expires

unfoldable pub sooner : ℕ → ℕ → List UsageWindow → ℕ
unfolding lowered
sooner updated expires [] = expires
sooner updated expires (w ∷ ws) = sooner updated (lowered updated expires w.reset_at) ws

unfoldable pub sooner_of : ℕ → ℕ → List UsageLimit → ℕ
unfolding sooner
sooner_of updated expires [] = expires
sooner_of updated expires (l ∷ ls) = sooner_of updated (sooner updated expires l.windows) ls

-- `ExpiresAt` of `snapshotState`.
unfoldable pub expires_at : Usage → ℕ
unfolding sooner_of
expires_at u = sooner_of u.updated_at (u.updated_at + usage_ttl) u.limits

-- `Stale` of `snapshotState`, with no refresh error.
unfoldable pub is_stale : Usage → ℕ → Bool
is_stale u now = leb (expires_at u) now || ltb now u.updated_at

abbrev pub is_some_true : Option Bool → Bool
is_some_true (some true) = true
is_some_true _ = false

abbrev pub is_some_false : Option Bool → Bool
is_some_false (some false) = true
is_some_false _ = false

abbrev pub past : Option ℕ → ℕ → Bool
past none now = false
past (some at) now = leb at now

-- The window loop of `quotaStatus`: `none` for a window that was reset since, else `(known, blocked)`.
unfoldable pub read_windows : ℕ → List UsageWindow → Bool → Bool → Option (Bool × Bool)
read_windows now [] known blocked = some (known, blocked)
read_windows now (w ∷ ws) known blocked =
    let rest =
      read_windows now ws (elim w.used_percent [ none ↦ known | some p ↦ true ])
        (elim w.used_percent [ none ↦ blocked | some p ↦ blocked || at_least_hundred p ]) in
    if past w.reset_at now then none else rest

-- The `remaining` loop: 0 as soon as one window has no usable percentage.
unfoldable pub remaining : List UsageWindow → ℕ → ℕ
remaining [] left = left
remaining (w ∷ ws) left = elim w.used_percent [
  | none ↦ 0
  | some p ↦ let rest = remaining ws (min left (ceil_left p)) in if is_left p then rest else 0
]

unfoldable pub limit_weight : List UsageWindow → ℕ → ℕ
limit_weight [] weight = weight
limit_weight (w ∷ ws) weight = remaining (w ∷ ws) 100

-- One round of the limit loop: an early return, or the result so far.
pub data Round : Type 0 where
  returns : Decision → Round
  goes_on : Decision → Round

-- What `quotaStatus` makes of the windows that were read.
unfoldable pub judge : ℕ → UsageLimit → Decision → Option (Bool × Bool) → Round
judge expires l result none = returns (decided stale)
judge expires l result (some (known, blocked)) =
    if blocked
    then returns (record { state = exhausted; retry_at = expires; weight = 0 })
    else if known
    then goes_on
        (record result { state = available; weight = limit_weight l.windows result.weight })
    else goes_on result

unfoldable pub read_limit : ℕ → ℕ → UsageLimit → Decision → Round
read_limit now expires l result = judge expires l result (
    read_windows now l.windows (is_some_true l.allowed || is_some_false l.limit_reached)
      (is_some_false l.allowed || is_some_true l.limit_reached))

unfoldable pub read_limits : ℕ → ℕ → List UsageLimit → Decision → ℕ → Decision
read_limits now expires [] result main = if main == 1 then result else record result { weight = 0 }
read_limits now expires (l ∷ ls) result main =
    if not (l.name == "")
    then read_limits now expires ls result main
    else elim (read_limit now expires l result) [
      | returns d ↦ d
      | goes_on next ↦ read_limits now expires ls next (main + 1)
    ]

unfoldable pub quota_status : Usage → ℕ → Decision
quota_status u now =
    if u.updated_at == 0
    then decided unknown
    else if is_stale u now
    then decided stale
    else read_limits now (expires_at u) u.limits (decided unknown) 0

-- `json.Unmarshal` of a stored snapshot: its size, and what it decodes to.
pub record RawUsage : Type 0 where
  pub size : ℕ
  pub parsed : Option Usage
  -- value.Limits != nil
  pub has_limits : Bool

unfoldable pub decode_usage : RawUsage → Option ℕ → Option Usage
decode_usage raw none = none
decode_usage raw (some updated) = elim raw.parsed [
  | none ↦ none
  | some u ↦
      if ltb 262144 raw.size
        || not raw.has_limits
        || not (u.updated_at == updated)
        || u.updated_at == 0
      then none
      else some u
]

unfoldable pub quota_routing_supported : String → Bool
quota_routing_supported p = p == "codex" || p == "claude" || p == "antigravity"

-- The loop of `quotaForModel`.
unfoldable pub pick_limit : String → List UsageLimit → List UsageLimit
pick_limit id [] = []
pick_limit id (l ∷ ls) =
    if not (id == "") && l.name == id then record l { name = "" } ∷ [] else pick_limit id ls

-- quotaForModel; `id` is the catalog's name of the model.
unfoldable pub quota_for_model : Usage → String → String → Usage
unfolding pick_limit
quota_for_model u provider id =
    if provider == "antigravity" then record u { limits = pick_limit id u.limits } else u

unfoldable pub snapshot_quota : String → String → RawUsage → Option ℕ → ℕ → Decision
unfolding quota_routing_supported decode_usage quota_status quota_for_model
snapshot_quota provider id raw updated now =
    if quota_routing_supported provider
    then elim (decode_usage raw updated) [
      | none ↦ decided unknown
      | some u ↦ quota_status (quota_for_model u provider id) now
    ]
    else decided unsupported
