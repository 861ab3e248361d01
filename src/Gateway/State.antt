-- ===== src/Gateway/State.antt =====
-- The state that internal/gateway keeps of accounts, models and members, and its tuning
-- (runtime.go, model_runtime.go, gateway.go, tuning.go). Instants and durations are counted in
-- nanoseconds, as `time.Time` and `time.Duration` do; `unix` and `unix_milli` cut them down.
use sub_lane.Base.{ℕ, ◌+◌, ◌-◌, ◌/◌, ◌≤◌, min, max, String, Bool, false, Option, none, some, arith}

abbrev pub unix : ℕ → ℕ
unix t = t / 1000000000

abbrev pub unix_milli : ℕ → ℕ
unix_milli t = t / 1000000

-- math.Ceil(d.Seconds())
abbrev pub ceil_seconds : ℕ → ℕ
ceil_seconds d = (d + 999999999) / 1000000000

-- The fields of `Policy` that admission reads.
pub record Tuning : Type 0 where
  pub quota_weighted : Bool
  pub capacity : ℕ
  pub queue_limit : ℕ
  pub transient_window : ℕ
  pub transient_cooldown : ℕ
  pub rate_limit_cooldown : ℕ
  pub transient_threshold : ℕ

-- DefaultPolicy
abbrev pub default_tuning : Tuning
default_tuning = record {
  quota_weighted = false;
  capacity = 128;
  queue_limit = 100;
  transient_window = 120000000000;
  transient_cooldown = 10000000000;
  rate_limit_cooldown = 5000000000;
  transient_threshold = 3;
}

pub data Reason : Type 0 where
  no_reason reason_rate_limited reason_upstream_error : Reason

-- Runtime; `max_concurrency` and `in_flight` count requests, `cooldown_until` is a Unix second.
pub record Runtime : Type 0 where
  pub max_concurrency : ℕ
  pub in_flight : ℕ
  pub cooldown_until : ℕ
  pub reason : Reason
  pub failures : ℕ
  pub last_failure_at : ℕ
  pub last_failure_sequence : ℕ
  pub revision : ℕ

-- accounts.Account, as routing reads it.
pub record Account : Type 0 where
  pub id : String
  pub provider : String
  pub enabled : Bool
  pub status : String

-- modelRuntime, without its key.
pub record ModelRuntime : Type 0 where
  pub lifecycle : ℕ
  pub runtime_revision : ℕ
  pub version : ℕ
  pub cooldown_until : ℕ
  pub failures : ℕ
  pub in_flight : ℕ
  pub last_failure_sequence : ℕ
  pub persist_failed : Bool
  pub reason : Reason
  pub last_failure_at : ℕ
  pub failure_window_at : ℕ

-- retryDelay. A `Retry-After` header is what its two parsers read: a number of seconds, an
-- instant (`http.ParseTime`), or neither.
pub data RetryAfter : Type 0 where
  -- a number below zero or none
  negative_seconds : RetryAfter
  seconds : ℕ → RetryAfter
  date : ℕ → RetryAfter
  unreadable : RetryAfter

abbrev pub clamp_delay : ℕ → ℕ
clamp_delay s = max 1 (min 3600 s)

unfoldable pub retry_delay : RetryAfter → ℕ → Option ℕ → ℕ
retry_delay negative_seconds now fallback = 1
retry_delay (seconds s) now fallback = clamp_delay s
retry_delay (date until) now fallback = clamp_delay (ceil_seconds (until - now))
retry_delay unreadable now (some d) = clamp_delay (ceil_seconds d)
retry_delay unreadable now none = 60

-- Whatever the header and the fallback, the delay is 1 to 3600 seconds.
pub retry_delay_bounds :
    (r : RetryAfter) (now : ℕ) (fallback : Option ℕ)
    → (1 ≤ retry_delay r now fallback) × (retry_delay r now fallback ≤ 3600)
unfolding retry_delay
retry_delay_bounds r now fallback = ground arith

-- observation, as admission and release read it; `model_state` is the pointer to the model's state.
pub record Observation : Type 0 where
  pub user_id : ℕ
  pub group_id : ℕ
  pub account_id : String
  pub model_state : Option ℕ
  pub leased : Bool
  pub member_leased : Bool
  pub sequence : ℕ
  pub revision : ℕ
  pub model_limited : Bool
  pub model_transient : Bool
  pub upstream_status : Option ℕ
