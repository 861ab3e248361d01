-- ===== src/Gateway/Classify.antt =====
-- The outcome, error code and penalty of a failed request: `classify` and
-- `observation.fail` of internal/gateway/history.go, `statusOutcome` of exchange.go, `temporaryStatus` of retry.go.
use sub_lane.Base.{
  ℕ, String, ◌≡◌, refl, sym, ap, ◌∙◌, inl, inr, Option, none, some, Bool-cases, ◌≢◌, ◌↔◌, Bool,
  true, false, ◌&&◌, ◌||◌, arith, leb, if◌then◌else◌, ◌==◌, string_eq, nat_eq,
}
use sub_lane.Failure.{
  Failure, is, invalid_input, continuation, interrupted, invalid_response, upstream_error,
  account_not_found, account_disabled, reauthorize, refresh_failed, group_unavailable,
  content_blocked, content_unavailable, affinity_unavailable, model_conflict, no_account,
  account_busy, account_queue_full, account_wait_timeout, account_cooling, model_cooling,
  quota_exhausted, member_busy, member_rate, model_not_allowed, catalog_unavailable,
  model_unavailable, allocation_accounting, allocation_quota, allocation_pending, allocation_risk,
  allocation_unpriced, allocation_unavailable, canceled, deadline_exceeded, plain, cooling, quota,
  member_rate_limited, rejected, store,
}

pub data Outcome : Type 0 where
  success incomplete canceled_request error_outcome rejected_request : Outcome

-- The `penalty` text; `none_due` is the empty one.
pub data Penalty : Type 0 where
  none_due rate_limited timeout upstream_fault : Penalty

pub record Verdict : Type 0 where
  pub outcome : Outcome
  pub error_code : String
  pub penalty : Penalty

abbrev verdict : Outcome → String → Penalty → Verdict
verdict o c p = record { outcome = o; error_code = c; penalty = p }

unfoldable pub status_outcome : ℕ → Verdict
status_outcome status =
    if status == 429
    then verdict error_outcome "rate_limited" rate_limited
    else if status == 401
    then verdict error_outcome "auth_required" none_due
    else if status == 403
    then verdict error_outcome "upstream_forbidden" none_due
    else if status == 408
    then verdict error_outcome "timeout" timeout
    else if leb 500 status
    then verdict error_outcome "upstream_unavailable" upstream_fault
    else verdict rejected_request "upstream_rejected" none_due

unfoldable pub temporary_status : ℕ → Bool
temporary_status s = s == 408 || s == 500 || s == 502 || s == 503 || s == 504

-- ctx.Err()
pub data ContextState : Type 0 where
  live cancelled expired : ContextState

abbrev is_cancelled : ContextState → Bool
is_cancelled cancelled = true
is_cancelled _ = false

abbrev is_expired : ContextState → Bool
is_expired expired = true
is_expired _ = false

-- The texts of the errors that `classify` passes on.
abbrev message : Failure → String
message e =
    if is e content_blocked
    then "content_policy_blocked"
    else if is e content_unavailable
    then "content_check_unavailable"
    else if is e allocation_quota
    then "allocation_exhausted"
    else if is e allocation_pending
    then "allocation_pending"
    else if is e allocation_risk
    then "allocation_risk_limit"
    else if is e allocation_unavailable
    then "allocation_unavailable"
    else if is e allocation_unpriced
    then "allocation_model_unpriced"
    else if is e account_queue_full
    then "account_queue_full"
    else "account_wait_timeout"

-- The `switch` of `classify`.
unfoldable pub classify_local : Failure → Verdict
classify_local e =
    if is e allocation_quota
      || is e allocation_pending
      || is e allocation_risk
      || is e allocation_unavailable
      || is e allocation_unpriced
    then verdict rejected_request (message e) none_due
    else if is e member_busy
    then verdict rejected_request "member_busy" none_due
    else if is e member_rate
    then verdict rejected_request "member_rate_limited" none_due
    else if is e allocation_accounting
    then verdict error_outcome "allocation_accounting_unavailable" none_due
    else if is e quota_exhausted
    then verdict rejected_request "quota_exhausted" none_due
    else if is e account_queue_full || is e account_wait_timeout
    then verdict rejected_request (message e) none_due
    else if is e account_busy
    then verdict rejected_request "account_busy" none_due
    else if is e account_cooling
    then verdict rejected_request "account_cooling" none_due
    else if is e model_cooling
    then verdict rejected_request "model_cooling" none_due
    else if is e model_conflict
    then verdict rejected_request "conversation_model_conflict" none_due
    else if is e no_account
        || is e affinity_unavailable
        || is e account_disabled
        || is e account_not_found
    then verdict rejected_request "account_unavailable" none_due
    else if is e group_unavailable
    then verdict rejected_request "group_unavailable" none_due
    else if is e reauthorize
    then verdict error_outcome "auth_required" none_due
    else if is e model_unavailable
    then verdict rejected_request "model_not_available" none_due
    else if is e catalog_unavailable
    then verdict rejected_request "model_catalog_unavailable" none_due
    else if is e model_not_allowed
    then verdict rejected_request "model_not_allowed" none_due
    else if is e invalid_input || is e continuation
    then verdict rejected_request "invalid_request" none_due
    else if is e interrupted || is e invalid_response
    then verdict error_outcome "stream_interrupted" upstream_fault
    else if is e refresh_failed
    then verdict error_outcome "refresh_failed" none_due
    else if is e upstream_error
    then verdict error_outcome "upstream_unavailable" upstream_fault
    else verdict error_outcome "request_failed" none_due

classify_other : Failure → Verdict
unfolding classify_local status_outcome
classify_other (rejected status r m) = status_outcome status
classify_other e = classify_local e

unfoldable pub classify : ContextState → Failure → Verdict
unfolding classify_other
classify c e =
    if is e content_blocked || is e content_unavailable
    then verdict rejected_request (message e) none_due
    else if is_cancelled c || is e canceled
    then verdict canceled_request "client_disconnected" none_due
    else if is_expired c || is e deadline_exceeded
    then verdict error_outcome "timeout" timeout
    else classify_other e

penalty-classify_local : (e : Failure) → (classify_local e).penalty ≢ rate_limited
unfolding classify_local
penalty-classify_local (plain account_queue_full) h = cc
penalty-classify_local (plain _) h = cc
penalty-classify_local (cooling r m) h = ground arith
penalty-classify_local (quota r) h = cc
penalty-classify_local (member_rate_limited r) h = cc
penalty-classify_local (rejected s r m) h = cc
penalty-classify_local store h = cc

penalty-status_outcome :
    (status : ℕ) → ((status_outcome status).penalty ≡ rate_limited) ↔ (status ≡ 429)
unfolding status_outcome
penalty-status_outcome status = ground arith

penalty-classify :
    (c : ContextState) (e : Failure)
    → classify_other e ≡ classify_local e
    → (classify c e).penalty ≢ rate_limited
unfolding classify
penalty-classify c e same h = ground (arith, penalty-classify_local e)

-- What observation.fail hands to `finish`, and whether it has marked the model's limit.
pub record Failed : Type 0 where
  pub verdict : Verdict
  pub retry : String
  pub model_limited : Bool

-- Whether a limit is on the model of the request's model state, if it has one.
abbrev pub is_own : Option String → String → Bool
is_own none limited = false
is_own (some model) limited = limited == model

-- observation.fail; `own` is the model of the request's model state.
unfoldable pub fail : ContextState → Option String → Failure → Failed
unfolding classify status_outcome
fail c own (rejected status retry limited) =
    let v = status_outcome status in
    if status == 429 && is_own own limited
    then record {
      verdict = record v { error_code = "model_rate_limited"; penalty = none_due };
      retry = retry;
      model_limited = true;
    }
    else record { verdict = v; retry = retry; model_limited = false }
fail c own e = record { verdict = classify c e; retry = ""; model_limited = false }

-- The provider has answered 429, for the model of the request or not.
abbrev pub IsLimited : Bool → Option String → Failure → Type 0
IsLimited of_model own e =
    (r : String) × (m : String) × (e ≡ rejected 429 r m) × (is_own own m ≡ of_model)

abbrev Blames : ContextState → Option String → Failure → Type 0
Blames c own e =
    (((fail c own e).verdict.penalty ≡ rate_limited) ↔ IsLimited false own e)
    × (((fail c own e).model_limited ≡ true) ↔ IsLimited true own e)

limited_own :
    (of_model b : Bool) (own : Option String) (s : ℕ) (r m : String)
    → is_own own m ≡ b
    → IsLimited of_model own (rejected s r m)
    → (s ≡ 429) × (b ≡ of_model)
limited_own of_model b own s r m known (r', m', same, own') =
    let status : s ≡ 429 = ground (arith, same) in
    let model : m ≡ m' = ground (arith, same) in (status, sym known ∙ ap (is_own own) model ∙ own')

rejected-Blames :
    (c : ContextState) (own : Option String) (s : ℕ) (r m : String) → Blames c own (rejected s r m)
unfolding fail
rejected-Blames c own s r m = elim (Bool-cases (s == 429)) [
  | inl limited ↦
      let status : s ≡ 429 = ground (arith, limited) in
      elim (Bool-cases (is_own own m)) [
        | inl yes' ↦
            rw (fail, limited, yes')
              (
                (λ h. cc, λ h. absurd (ground (arith, limited_own false true own s r m yes' h))),
                (λ h. (r, m, ap (λ n. rejected n r m) status, yes'), λ h. refl),
              )
        | inr no' ↦
            rw (fail, limited, no')
              (
                (λ h. (r, m, ap (λ n. rejected n r m) status, no'), λ h. refl),
                (λ h. cc, λ h. absurd (ground (arith, limited_own true false own s r m no' h))),
              )
      ]
  | inr other ↦
      rw (fail, other)
        (
          (
            λ h. absurd (ground (arith, h)),
            λ h. absurd (ground (arith, limited_own false (is_own own m) own s r m refl h, other)),
          ),
          (
            λ h. cc,
            λ h. absurd (ground (arith, limited_own true (is_own own m) own s r m refl h, other)),
          ),
        )
]

local-Blames :
    (c : ContextState) (own : Option String) (e : Failure)
    → classify_other e ≡ classify_local e
    → fail c own e ≡ record { verdict = classify c e; retry = ""; model_limited = false }
    → ((r m : String) → e ≢ rejected 429 r m)
    → Blames c own e
local-Blames c own e same made other = (
  (
    λ h. absurd (penalty-classify c e same (sym (ap (λ (f : Failed). f.verdict.penalty) made) ∙ h)),
    λ (r, m, h, k). absurd (other r m h),
  ),
  (
    λ h. absurd (ground (arith, ap (λ (f : Failed). f.model_limited) made, h)),
    λ (r, m, h, k). absurd (other r m h),
  ),
)

-- Where a request fails with an error, `fail` blames its account for a rate limit exactly when the
-- provider answered 429 and did not name the model of the request's model state, and marks the
-- model's limit exactly when it answered 429 and named that model, whatever the request's context.
pub fail-rate_limited_iff :
    (c : ContextState) (own : Option String) (e : Failure)
    → (((fail c own e).verdict.penalty ≡ rate_limited) ↔ IsLimited false own e)
      × (((fail c own e).model_limited ≡ true) ↔ IsLimited true own e)
unfolding fail
fail-rate_limited_iff c own (rejected s r m) = rejected-Blames c own s r m
fail-rate_limited_iff c own (plain s) = local-Blames c own (plain s) refl refl (λ r m h. cc)
fail-rate_limited_iff c own (cooling r m) = local-Blames c own (cooling r m) refl refl (λ r m h. cc)
fail-rate_limited_iff c own (quota r) = local-Blames c own (quota r) refl refl (λ r m h. cc)
fail-rate_limited_iff c own (member_rate_limited r) =
    local-Blames c own (member_rate_limited r) refl refl (λ r m h. cc)
fail-rate_limited_iff c own store = local-Blames c own store refl refl (λ r m h. cc)
