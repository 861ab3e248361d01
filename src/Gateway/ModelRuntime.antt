-- ===== src/Gateway/ModelRuntime.antt =====
-- What a finished request does to the state of the model it used: `finishModelRuntime` of
-- internal/gateway/model_runtime.go. The two database calls enter as their results.
use sub_lane.Base.{
  ℕ, ◌+◌, ◌-◌, ◌*◌, ◌^◌, ◌≤◌, ◌<◌, min, max, ◌≡◌, ◌≢◌, ◌⊎◌, Bool, true, false, not, ◌&&◌, ◌||◌,
  some, arith, ltb, leb, if◌then◌else◌,
}
use sub_lane.Gateway.Classify.{Outcome}
use sub_lane.Gateway.State.{
  unix, unix_milli, Tuning, Reason, ModelRuntime, RetryAfter, retry_delay, retry_delay_bounds,
  Observation, no_reason, reason_rate_limited, reason_upstream_error,
}
use sub_lane.Gateway.Health.{is_done}

abbrev pub max_model_runtime : ℕ
max_model_runtime = 1000

-- The result of SaveAccountModelRuntime: a version, no row (a newer lifecycle), or an error; and
-- of DeleteAccountModelLimit, where only the error counts.
pub data Write : Type 0 where
  saved : ℕ → Write
  no_rows : Write
  write_failed : Write

abbrev is_reason : Reason → Reason → Bool
is_reason no_reason no_reason = true
is_reason reason_rate_limited reason_rate_limited = true
is_reason reason_upstream_error reason_upstream_error = true
is_reason _ _ = false

-- A failure of another kind, or outside the window of the first, starts a new count.
unfoldable pub starts_over : Tuning → ℕ → Reason → ModelRuntime → Bool
starts_over t now reason m =
    not (is_reason reason m.reason)
    || (is_reason reason reason_upstream_error
        && (ltb (unix_milli now) m.last_failure_at
            || leb (unix_milli t.transient_window) (unix_milli now - m.failure_window_at)))

unfoldable pub count_failure : Tuning → ℕ → Reason → ModelRuntime → ModelRuntime
count_failure t now reason m =
    let over = starts_over t now reason m in
    record m {
      failures = min 16 ((if over then 0 else m.failures) + 1);
      failure_window_at = if over then unix_milli now else m.failure_window_at;
      reason = reason;
      last_failure_at = unix_milli now;
    }

-- min(300, seconds << min(4, failures-threshold))
unfoldable pub transient_delay : Tuning → ℕ → ℕ
transient_delay t failures =
    min 300 (unix t.transient_cooldown * 2 ^ min 4 (failures - t.transient_threshold))

unfoldable pub cool_down : Tuning → ℕ → Bool → RetryAfter → ModelRuntime → ModelRuntime
cool_down t now limited retry m =
    if limited
    then record m {
      cooldown_until =
          max m.cooldown_until (unix now + retry_delay retry now (some t.rate_limit_cooldown));
    }
    else if leb t.transient_threshold m.failures
    then record m {
      cooldown_until = max m.cooldown_until (unix now + max 1 (transient_delay t m.failures));
    }
    else m

-- The state that the failure branch computes before it is saved; `next` is its sequence number.
unfoldable pub failed_model :
    Tuning → ℕ → Observation → RetryAfter → ℕ → ModelRuntime → ModelRuntime
failed_model t now e retry next m =
    let reason = if e.model_transient then reason_upstream_error else reason_rate_limited in
    record (cool_down t now e.model_limited retry (count_failure t now reason m)) {
      last_failure_sequence = next;
    }

unfoldable pub write_failure : Write → ModelRuntime → ModelRuntime → ModelRuntime
write_failure (saved v) m next = record next { version = v; persist_failed = false }
write_failure no_rows m next = m
write_failure write_failed m next = record next { persist_failed = true }

unfoldable pub write_recovery : Write → ModelRuntime → ModelRuntime
write_recovery write_failed m = record m { persist_failed = true }
write_recovery _ m = record m { failures = 0; cooldown_until = 0; persist_failed = false }

-- The body of `finishModelRuntime` for the state that the map still holds, after the decrement:
-- the state and the service's sequence number.
unfoldable pub settle_model :
    Tuning → ℕ → Observation → Outcome → RetryAfter → Write → ℕ → ModelRuntime → ModelRuntime × ℕ
settle_model t now e outcome retry w sequence m =
    if e.model_limited || e.model_transient
    then (write_failure w m (failed_model t now e retry (sequence + 1) m), sequence + 1)
    else if is_done outcome
        && leb m.cooldown_until (unix now)
        && ltb m.last_failure_sequence e.sequence
        && ltb 0 m.failures
    then (write_recovery w m, sequence)
    else (m, sequence)

count_failure_lem :
    (t : Tuning) (now : ℕ) (why : Reason) (m : ModelRuntime)
    → let after = count_failure t now why m in
      (1 ≤ after.failures) × (after.failures ≤ 16) × (after.cooldown_until ≡ m.cooldown_until)
unfolding count_failure
count_failure_lem t now why m = ground arith

-- While a model's cooldown has not run out, no request that ends makes it shorter, whatever becomes
-- of the write.
pub settle_model_cooling :
    (t : Tuning) (now : ℕ) (e : Observation) (outcome : Outcome) (retry : RetryAfter) (w : Write)
    (sequence : ℕ) (m : ModelRuntime)
    → unix now < m.cooldown_until
    → m.cooldown_until ≤ (settle_model t now e outcome retry w sequence m).0.cooldown_until
unfolding settle_model write_failure write_recovery failed_model cool_down count_failure
settle_model_cooling t now e outcome retry w sequence m cold = ground (
  arith,
  retry_delay_bounds retry now (some t.rate_limit_cooldown),
  count_failure_lem t now reason_upstream_error m,
  count_failure_lem t now reason_rate_limited m,
)

-- A request that met the model's limit, and whose write was not turned away as out of date (no
-- row), closes the model: until after the present second, and at most 3600 seconds from now or as
-- long as before; it counts 1 to 16 failures, the last under the sequence number just taken.
pub settle_model_limited :
    (t : Tuning) (now : ℕ) (e : Observation) (outcome : Outcome) (retry : RetryAfter) (w : Write)
    (sequence : ℕ) (m : ModelRuntime)
    → e.model_limited ≡ true
    → w ≢ no_rows
    → let after = (settle_model t now e outcome retry w sequence m).0 in
      (unix now < after.cooldown_until)
      × (after.cooldown_until ≤ max m.cooldown_until (unix now + 3600))
      × (1 ≤ after.failures)
      × (after.failures ≤ 16)
      × (after.last_failure_sequence ≡ sequence + 1)
unfolding settle_model write_failure failed_model cool_down
settle_model_limited t now e outcome retry w sequence m limited written = ground (
  arith,
  retry_delay_bounds retry now (some t.rate_limit_cooldown),
  count_failure_lem t now reason_upstream_error m,
  count_failure_lem t now reason_rate_limited m,
)

-- A request with a transient failure and no limit, whose write succeeded: below the threshold of
-- failures the cooldown stays as it is; from the threshold on the model is closed until after the
-- present second, and at most 300 seconds from now or as long as before.
pub settle_model_transient :
    (t : Tuning) (now : ℕ) (e : Observation) (outcome : Outcome) (retry : RetryAfter)
    (version sequence : ℕ) (m : ModelRuntime)
    → e.model_limited ≡ false
    → e.model_transient ≡ true
    → let after = (settle_model t now e outcome retry (saved version) sequence m).0 in
      ((after.failures < t.transient_threshold) × (after.cooldown_until ≡ m.cooldown_until))
      ⊎ ((t.transient_threshold ≤ after.failures)
          × (unix now < after.cooldown_until)
          × (after.cooldown_until ≤ max m.cooldown_until (unix now + 300)))
unfolding settle_model write_failure failed_model cool_down transient_delay
settle_model_transient t now e outcome retry version sequence m limited transient = ground (
  arith,
  retry_delay_bounds retry now (some t.rate_limit_cooldown),
  count_failure_lem t now reason_upstream_error m,
  count_failure_lem t now reason_rate_limited m,
)
