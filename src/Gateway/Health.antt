-- ===== src/Gateway/Health.antt =====
-- What a finished request does to its account's runtime state: the middle of `finish` in
-- internal/gateway/history.go.
use sub_lane.Base.{
  ℕ, ◌+◌, ◌-◌, ◌≤◌, ◌<◌, min, max, ◌≡◌, Bool, true, false, ◌&&◌, some, arith, ltb, leb,
  if◌then◌else◌, ◌==◌, string_eq, nat_eq,
}
use sub_lane.Gateway.Classify.{Outcome, Penalty, Verdict, success, incomplete, rate_limited}
use sub_lane.Gateway.State.{
  unix, unix_milli, Tuning, Runtime, RetryAfter, retry_delay, retry_delay_bounds, Observation,
  no_reason, reason_rate_limited,
}

abbrev pub is_rate_limited : Penalty → Bool
is_rate_limited rate_limited = true
is_rate_limited _ = false

-- outcome == "success" || outcome == "incomplete"
abbrev pub is_done : Outcome → Bool
is_done success = true
is_done incomplete = true
is_done _ = false

-- The branch for a rate limit. `next` is the sequence number just taken.
unfoldable pub penalise : Tuning → ℕ → RetryAfter → ℕ → Runtime → Runtime
penalise t now retry next r =
    let delay = retry_delay retry now (some t.rate_limit_cooldown) in
    record r {
      failures = min 16 (r.failures + 1);
      last_failure_at = unix_milli now;
      last_failure_sequence = next;
      reason = reason_rate_limited;
      cooldown_until =
          if ltb 0 delay then max r.cooldown_until (unix now + delay) else r.cooldown_until;
    }

unfoldable pub recover : Runtime → Runtime
recover r = record r {
  failures = 0;
  cooldown_until = 0;
  reason = no_reason;
  last_failure_at = 0;
  last_failure_sequence = 0;
}

-- The runtime state and the service's sequence number after the request.
unfoldable pub settle_runtime :
    Tuning → ℕ → Observation → Verdict → RetryAfter → ℕ → Runtime → Runtime × ℕ
settle_runtime t now e v retry sequence r =
    if r.revision == e.revision
    then if is_rate_limited v.penalty
      then (penalise t now retry (sequence + 1) r, sequence + 1)
      else if is_done v.outcome
          && ltb r.last_failure_sequence e.sequence
          && leb r.cooldown_until (unix now)
      then (recover r, sequence)
      else (r, sequence)
    else (r, sequence)

-- state.InFlight = max(0, state.InFlight-1)
abbrev pub release : Runtime → Runtime
release r = record r { in_flight = r.in_flight - 1 }

-- A late success never hides a failure: a request admitted no later than the last failure leaves
-- the account's failures and cooldown as they are or makes them greater, and stays too late, where
-- the account's last failure has a number that was given out.
pub settle_runtime_late :
    (t : Tuning) (now : ℕ) (e : Observation) (v : Verdict) (retry : RetryAfter) (sequence : ℕ)
    (r : Runtime)
    → e.sequence ≤ r.last_failure_sequence
    → r.last_failure_sequence ≤ sequence
    → let after = (settle_runtime t now e v retry sequence r).0 in
      (r.cooldown_until ≤ after.cooldown_until)
      × (min 16 r.failures ≤ after.failures)
      × (e.sequence ≤ after.last_failure_sequence)
unfolding settle_runtime penalise
settle_runtime_late t now e v retry sequence r late issued =
    ground (arith, retry_delay_bounds retry now (some t.rate_limit_cooldown))

-- A cooldown that has not run out is never shortened, whoever finishes.
pub settle_runtime_cooling :
    (t : Tuning) (now : ℕ) (e : Observation) (v : Verdict) (retry : RetryAfter) (sequence : ℕ)
    (r : Runtime)
    → unix now < r.cooldown_until
    → r.cooldown_until ≤ (settle_runtime t now e v retry sequence r).0.cooldown_until
unfolding settle_runtime penalise
settle_runtime_cooling t now e v retry sequence r cold =
    ground (arith, retry_delay_bounds retry now (some t.rate_limit_cooldown))

-- A rate limit on the account's present revision closes it for 1 to 3600 seconds from now, or
-- for as long as it was closed before.
pub settle_runtime_limited :
    (t : Tuning) (now : ℕ) (e : Observation) (v : Verdict) (retry : RetryAfter) (sequence : ℕ)
    (r : Runtime)
    → v.penalty ≡ rate_limited
    → r.revision ≡ e.revision
    → let (after, next) = settle_runtime t now e v retry sequence r in
      (unix now < after.cooldown_until)
      × (after.cooldown_until ≤ max r.cooldown_until (unix now + 3600))
      × (after.last_failure_sequence ≡ next)
      × (1 ≤ after.failures)
      × (after.failures ≤ 16)
unfolding settle_runtime penalise
settle_runtime_limited t now e v retry sequence r h k =
    ground (arith, retry_delay_bounds retry now (some t.rate_limit_cooldown))
